-- ===== src/Go/PathLaws.antt =====
-- The elements of a cleaned path, and that cleaning is idempotent.
use Prim.Native.String.{[], ◌∷◌, ◌++◌ as text_append}
use mathlib.Core.List.{reverse, tail, reverse_aux}
use mathlib.Core.List.{reverse-cons, append_assoc, append-nil}
use text.Mathlib.TextLemmas.{nil-append, cons-append}
use scia.Base.{
  code, String, List, [], ◌∷◌, ◌++◌, ◌≡◌, ◌≢◌, refl, sym, ap, ◌∙◌, arith, eq_iff, ◌==◌, All, false,
  cons-ne-nil, nat_eq, inl, inr, Bool-cases,
}
use scia.Go.Strings.{trim_prefix}
use scia.Go.Path.{push_head, split_slash, clean_step, clean_parts, join_rooted, clean_rooted}

abbrev pub NoSlash : String → Type 0
NoSlash [] = Unit
NoSlash (c ∷ s) = (nat_eq (code c) b'/' ≡ false) × NoSlash s

-- An element of a cleaned path.
abbrev pub IsPlain : String → Type 0
IsPlain p = NoSlash p × (p ≢ "") × (p ≢ ".") × (p ≢ "..")

split_slash-NoSlash : (s : String) → All NoSlash (split_slash s)
unfolding split_slash
split_slash-NoSlash [] = (tt, tt)
split_slash-NoSlash (c ∷ s) = elim (Bool-cases (nat_eq (code c) b'/')) [
  | inl e ↦ rw e (tt, split_slash-NoSlash s)
  | inr e ↦ rw e (push (split_slash s) e (split_slash-NoSlash s))
]
  where
    push :
        (ps : List String)
        → nat_eq (code c) b'/' ≡ false
        → All NoSlash ps
        → All NoSlash (push_head c ps)
    push [] e h = ((e, tt), tt)
    push (p ∷ ps) e (h, hs) = ((e, h), hs)

All-tail : (P : String → Type 0) (xs : List String) → All P xs → All P (tail xs)
All-tail P [] h = tt
All-tail P (x ∷ xs) h = h.1

All-reverse_aux :
    (P : String → Type 0) (xs ys : List String) → All P xs → All P ys → All P (reverse_aux xs ys)
All-reverse_aux P [] ys h k = k
All-reverse_aux P (x ∷ xs) ys h k = All-reverse_aux P xs (x ∷ ys) h.1 (h.0, k)

clean_step-IsPlain :
    (stack : List String) (p : String)
    → All IsPlain stack
    → NoSlash p
    → All IsPlain (clean_step stack p)
unfolding clean_step
clean_step-IsPlain stack p h n =
    ground (arith, eq_iff p "", eq_iff p ".", eq_iff p "..", All-tail IsPlain stack h)

clean_parts-IsPlain :
    (stack parts : List String)
    → All IsPlain stack
    → All NoSlash parts
    → All IsPlain (clean_parts stack parts)
unfolding clean_parts
clean_parts-IsPlain stack [] h n = All-reverse_aux IsPlain stack [] h tt
clean_parts-IsPlain stack (p ∷ ps) h (n, ns) =
    clean_parts-IsPlain (clean_step stack p) ps (clean_step-IsPlain stack p h n) ns

clean_step_of_IsPlain :
    (stack : List String) (p : String) → IsPlain p → clean_step stack p ≡ p ∷ stack
unfolding clean_step
clean_step_of_IsPlain stack p h = ground (arith, eq_iff p "", eq_iff p ".", eq_iff p "..")

-- Plain elements stay.
clean_parts_of_IsPlain :
    (stack ps : List String) → All IsPlain ps → clean_parts stack ps ≡ reverse stack ++ ps
unfolding clean_parts
clean_parts_of_IsPlain stack [] h = sym (append-nil _)
clean_parts_of_IsPlain stack (p ∷ ps) (h, hs) =
    ap (λ s. clean_parts s ps) (clean_step_of_IsPlain stack p h)
    ∙ clean_parts_of_IsPlain (p ∷ stack) ps hs
    ∙ simp (reverse-cons, append_assoc)

split_slash-join :
    (p : String) (ps : List String)
    → NoSlash p
    → All NoSlash ps
    → split_slash (text_append p (join_rooted ps)) ≡ p ∷ ps
unfolding split_slash join_rooted
split_slash-join [] [] n ns = refl
split_slash-join [] (q ∷ qs) n (m, ms) =
    rw (nil-append, cons-append, nil-append) (ap (◌∷◌ []) (split_slash-join q qs m ms))
split_slash-join (c ∷ p) ps (e, n) ns = rw cons-append (rw (e, split_slash-join p ps n ns))

-- A rooted path of given elements: "/" of none.
unfoldable pub rooted : List String → String
rooted [] = "/"
rooted (p ∷ ps) = join_rooted (p ∷ ps)

All_NoSlash : (ps : List String) → All IsPlain ps → All NoSlash ps
All_NoSlash [] h = tt
All_NoSlash (p ∷ ps) (h, hs) = (h.0, All_NoSlash ps hs)

clean_rooted-rooted : (s : String) → clean_rooted s ≡ rooted (clean_parts [] (split_slash s))
unfolding clean_rooted rooted
clean_rooted-rooted s = go (clean_parts [] (split_slash s))
  where
    go :
        (ps : List String)
        → (elim ps as (λ _. String) [ [] ↦ "/" | q ∷ qs ↦ join_rooted (q ∷ qs) ]) ≡ rooted ps
    go [] = refl
    go (q ∷ qs) = refl

-- The elements of a cleaned path: none is empty, "." or "..", and none holds a slash.
pub clean_rooted-IsPlain :
    (s : String) → (ps : List String) × (clean_rooted s ≡ rooted ps) × All IsPlain ps
clean_rooted-IsPlain s = (
  clean_parts [] (split_slash s),
  clean_rooted-rooted s,
  clean_parts-IsPlain [] (split_slash s) tt (split_slash-NoSlash s),
)

trim_slash : (s : String) → trim_prefix (text_append "/" s) "/" ≡ s
unfolding trim_prefix
trim_slash s = rw (cons-append, nil-append) refl

-- A path of plain elements is its own cleaned form.
pub clean_rooted_of_IsPlain :
    (ps : List String) → All IsPlain ps → clean_rooted (trim_prefix (rooted ps) "/") ≡ rooted ps
unfolding rooted trim_prefix clean_rooted
clean_rooted_of_IsPlain [] h = refl
clean_rooted_of_IsPlain (p ∷ ps) h = cleaned
  where
    rest : String
    rest = text_append p (join_rooted ps)

    elements : clean_parts [] (split_slash rest) ≡ p ∷ ps
    elements =
        ap (clean_parts []) (split_slash-join p ps h.0.0 (All_NoSlash ps h.1))
        ∙ clean_parts_of_IsPlain [] (p ∷ ps) h

    cleaned : clean_rooted (trim_prefix (join_rooted (p ∷ ps)) "/") ≡ join_rooted (p ∷ ps)
    cleaned = ap clean_rooted (trim_slash rest) ∙ clean_rooted-rooted rest ∙ ap rooted elements

pub rooted-ne : (ps : List String) → (rooted ps == "") ≡ false
unfolding rooted join_rooted
rooted-ne List.[] = refl
rooted-ne (p ∷ ps) = rw (cons-append, nil-append) (cons-ne-nil _ _)
