-- ===== src/Serviceinfo/IndexLaws.antt =====
-- internal/serviceinfo/serviceinfo.go: what ListIDs makes of the stored index.
use scia.Base.{
  String, List, [], ◌∷◌, Bool, true, false, ◌||◌, ◌==◌, contains, ◌≡◌, ◌≢◌, inl, inr, refl, arith,
  All, All_imp, Any, Elem, Distinct, eq_iff, if-cases, subst, ne_of_test, Text-cases,
}
use scia.Go.{trim_space}
use scia.Serviceinfo.Index.{distinct_ids}

abbrev pub Listed : List String → String → Type 0
Listed given id = Any (λ g. trim_space g ≡ id) given

-- What ListIDs returns of a stored index.
pub record IsIndex (given ids : List String) : Type 0 where
  pub distinct : Distinct ids
  pub set : All (λ id. id ≢ "") ids
  pub listed : All (Listed given) ids
  pub complete : (id : String) → id ≢ "" → Listed given id → Elem id ids

distinct_ids-new :
    (seen ids : List String) (id : String)
    → Elem id (distinct_ids seen ids)
    → contains seen id ≡ false
unfolding distinct_ids
distinct_ids-new seen [] id h = elim h [ ]
distinct_ids-new seen (g ∷ ids) id h =
    if-cases (λ l. Elem id l → contains seen id ≡ false)
      (trim_space g == "" || contains seen (trim_space g)) _ _
      (λ _ m. distinct_ids-new seen ids id m)
      (λ n m. elim m [
        | inl e ↦ subst (λ x. contains seen x ≡ false) e (ground arith)
        | inr m' ↦ let later = distinct_ids-new (trim_space g ∷ seen) ids id m' in ground arith
      ])
      h

distinct_ids-Distinct : (seen ids : List String) → Distinct (distinct_ids seen ids)
unfolding distinct_ids
distinct_ids-Distinct seen [] = tt
distinct_ids-Distinct seen (g ∷ ids) =
    if-cases Distinct (trim_space g == "" || contains seen (trim_space g)) _ _
      (λ _. distinct_ids-Distinct seen ids)
      (λ n. (
        (λ m.
            let e = distinct_ids-new (trim_space g ∷ seen) ids (trim_space g) m in
            no (contains seen (trim_space g)) (trim_space g) e),
        distinct_ids-Distinct (trim_space g ∷ seen) ids,
      ))
  where
    no : (b : Bool) (t : String) → ¬ (((t == t) || b) ≡ false)
    no b t h = ground (arith, eq_iff t t)

distinct_ids-set : (seen ids : List String) → All (λ id. id ≢ "") (distinct_ids seen ids)
unfolding distinct_ids
distinct_ids-set seen [] = tt
distinct_ids-set seen (g ∷ ids) =
    if-cases (All (λ id. id ≢ "")) (trim_space g == "" || contains seen (trim_space g)) _ _
      (λ _. distinct_ids-set seen ids)
      (λ n.
        (ne_of_test (trim_space g) "" (ground arith), distinct_ids-set (trim_space g ∷ seen) ids))

distinct_ids-listed : (seen ids : List String) → All (Listed ids) (distinct_ids seen ids)
unfolding distinct_ids
distinct_ids-listed seen [] = tt
distinct_ids-listed seen (g ∷ ids) =
    if-cases (All (Listed (g ∷ ids))) (trim_space g == "" || contains seen (trim_space g)) _ _
      (λ _. All_imp _ _ _ (λ id m. inr m) (distinct_ids-listed seen ids))
      (λ n.
        (inl refl, All_imp _ _ _ (λ id m. inr m) (distinct_ids-listed (trim_space g ∷ seen) ids)))

distinct_ids_complete :
    (seen ids : List String) (id : String)
    → id ≢ ""
    → contains seen id ≡ false
    → Listed ids id
    → Elem id (distinct_ids seen ids)
unfolding distinct_ids
distinct_ids_complete seen [] id n c h = elim h [ ]
distinct_ids_complete seen (g ∷ ids) id n c (inl e) =
    if-cases (Elem id) (trim_space g == "" || contains seen (trim_space g)) _ _
      (λ t. absurd (refused seen (trim_space g) id e n c t)) (λ t. inl e)
  where
    refused :
        (seen : List String) (x id : String)
        → x ≡ id
        → id ≢ ""
        → contains seen id ≡ false
        → ¬ ((x == "" || contains seen x) ≡ true)
    refused seen x id e n c t =
        let t' : (id == "" || contains seen id) ≡ true =
          subst (λ y. (y == "" || contains seen y) ≡ true) e t in
        n ((eq_iff id "").0 (ground arith))
distinct_ids_complete seen (g ∷ ids) id n c (inr h) =
    if-cases (Elem id) (trim_space g == "" || contains seen (trim_space g)) _ _
      (λ t. distinct_ids_complete seen ids id n c h)
      (λ t. elim (Text-cases (trim_space g) id) [
        | inl e ↦ inl e
        | inr e ↦ inr (distinct_ids_complete (trim_space g ∷ seen) ids id n (ground arith) h)
      ])

-- The ids that ListIDs makes of a stored index are those of the index without the white space around
-- them, each that is not empty, and none twice.
pub distinct_ids-IsIndex : (ids : List String) → IsIndex ids (distinct_ids [] ids)
distinct_ids-IsIndex ids = record {
  distinct = distinct_ids-Distinct [] ids;
  set = distinct_ids-set [] ids;
  listed = distinct_ids-listed [] ids;
  complete = λ id n h. distinct_ids_complete [] ids id n refl h;
}
