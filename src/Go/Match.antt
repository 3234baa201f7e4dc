-- ===== src/Go/Match.antt =====
-- Package path: Match. The pattern is cut into chunks at its stars, and a chunk is matched by a
-- machine that reads one character of the chunk at a time. A malformed pattern is an error in Go;
-- here it does not match, since scia asks for `err == nil && matched` alone.
use Prim.Native.String.{[], ◌∷◌}
use scia.Base.{
  ℕ, Char, code, String, List, [], ◌∷◌, Bool, true, false, not, ◌&&◌, ◌||◌, leb, nat_eq, map,
  if◌then◌else◌, is_empty,
}
use scia.Go.Net.{has_char}

-- A character class that is being read: the rune to match, and what was read of the class.
pub record Class : Type 0 where
  pub rune : ℕ
  pub negated : Bool
  pub matched : Bool
  pub some_range : Bool

pub data Mode : Type 0 where
  normal escaped : Mode
  opened : ℕ → Mode
  item item_escaped : Class → Mode
  after_lo hi hi_escaped : Class → ℕ → Mode
  bad : Mode

pub record Scan : Type 0 where
  pub mode : Mode
  pub failed : Bool
  pub rest : String

abbrev is_nil : String → Bool
is_nil [] = true
is_nil (c ∷ s) = false

abbrev head_code : String → ℕ
head_code [] = 0
head_code (c ∷ s) = code c

abbrev rest_of : String → String
rest_of [] = []
rest_of (c ∷ s) = s

-- A rune of the chunk has to be the next one of the name.
abbrev literal : ℕ → Scan → Scan
literal c k =
    if k.failed
    then record k { mode = normal }
    else record { mode = normal; failed = not (nat_eq c (head_code k.rest)); rest = rest_of k.rest }

abbrev start_item : ℕ → Class → Scan → Scan
start_item c cl k =
    if nat_eq c b']' && cl.some_range
    then record k {
      mode = normal;
      failed = k.failed || cl.matched && cl.negated || not (cl.matched || cl.negated);
    }
    else if nat_eq c b'-' || nat_eq c b']'
    then record k { mode = bad }
    else if nat_eq c 0x5c
    then record k { mode = item_escaped cl }
    else record k { mode = after_lo cl c }

abbrev add_range : ℕ → ℕ → Class → Class
add_range from to cl = record cl {
  matched = cl.matched || leb from cl.rune && leb cl.rune to;
  some_range = true;
}

-- At an item of the chunk an exhausted name is a failure.
abbrev at_item : Scan → Scan
at_item k = record k { failed = k.failed || is_nil k.rest }

normal_step : ℕ → Scan → Scan
normal_step c k =
    if nat_eq c b'['
    then (if k.failed
        then record k { mode = opened 0 }
        else record { mode = opened (head_code k.rest); failed = false; rest = rest_of k.rest })
    else if nat_eq c b'?'
    then (if k.failed then k else record {
      mode = normal;
      failed = nat_eq (head_code k.rest) b'/';
      rest = rest_of k.rest;
    })
    else if nat_eq c 0x5c
    then record k { mode = escaped }
    else literal c k

no_class : ℕ → Bool → Class
no_class r n = record { rune = r; negated = n; matched = false; some_range = false }

chunk_step : Mode → ℕ → Scan → Scan
unfolding normal_step no_class
chunk_step normal c k = normal_step c (at_item k)
chunk_step escaped c k = literal c k
chunk_step (opened r) c k =
    if nat_eq c b'^'
    then record k { mode = item (no_class r true) }
    else start_item c (no_class r false) k
chunk_step (item cl) c k = start_item c cl k
chunk_step (item_escaped cl) c k = record k { mode = after_lo cl c }
chunk_step (after_lo cl lo) c k =
    if nat_eq c b'-' then record k { mode = hi cl lo } else start_item c (add_range lo lo cl) k
chunk_step (hi cl lo) c k =
    if nat_eq c b'-' || nat_eq c b']'
    then record k { mode = bad }
    else if nat_eq c 0x5c
    then record k { mode = hi_escaped cl lo }
    else record k { mode = item (add_range lo c cl) }
chunk_step (hi_escaped cl lo) c k = record k { mode = item (add_range lo c cl) }
chunk_step bad c k = k

run_chunk : String → Scan → Scan
unfolding chunk_step
run_chunk [] k = k
run_chunk (c ∷ s) k = run_chunk s (chunk_step k.mode (code c) k)

pub data ChunkResult : Type 0 where
  hit : String → ChunkResult
  miss malformed : ChunkResult

abbrev chunk_result : Mode → Scan → ChunkResult
chunk_result normal k = if k.failed then miss else hit k.rest
chunk_result _ k = malformed

-- matchChunk
pub match_chunk : String → String → ChunkResult
unfolding run_chunk
match_chunk chunk s =
    let k = run_chunk chunk (record { mode = normal; failed = false; rest = s }) in
    chunk_result k.mode k

-- The first place behind a star at which the chunk matches; a star passes no slash.
abbrev accepts : Bool → ChunkResult → ChunkResult
accepts last (hit t) = if last && not (is_nil t) then miss else hit t
accepts last r = r

abbrev or_later : ChunkResult → ChunkResult → ChunkResult
or_later miss later = later
or_later r later = r

pub skip_match : String → Bool → String → ChunkResult
unfolding match_chunk
skip_match chunk last [] = miss
skip_match chunk last (c ∷ s) =
    let later = skip_match chunk last s in
    if nat_eq (code c) b'/' then miss else or_later (accepts last (match_chunk chunk s)) later

abbrev if_miss : ChunkResult → Bool → ChunkResult → ChunkResult
if_miss miss star later = if star then later else miss
if_miss r star later = r

pub match_chunks : List (Bool × String) → String → Bool
unfolding match_chunk skip_match has_char
match_chunks [] name = is_nil name
match_chunks ((star, chunk) ∷ more) name =
    if star && is_nil chunk
    then not (has_char name b'/')
    else elim (if_miss (accepts (is_empty more) (match_chunk chunk name)) star
        (skip_match chunk (is_empty more) name)) [
          | hit t ↦ match_chunks more t
          | miss ↦ false
          | malformed ↦ false
        ]

-- The chunks of a pattern: the first one, and those behind a star.
abbrev add_char : Char → String × List String → String × List String
add_char c (first, stars) = (c ∷ first, stars)

abbrev new_chunk : String × List String → List String
new_chunk ([], []) = [] ∷ []
new_chunk ([], s ∷ stars) = s ∷ stars
new_chunk (c ∷ first, stars) = (c ∷ first) ∷ stars

abbrev in_range : ℕ → Bool → Bool
in_range c b = nat_eq c b'[' || b && not (nat_eq c b']')

cut_chunks : Bool → Bool → String → String × List String
cut_chunks _ b [] = ([], [])
cut_chunks true b (c ∷ s) = add_char c (cut_chunks false b s)
cut_chunks false b (c ∷ s) =
    let star = nat_eq (code c) b'*' && not b in
    let more = cut_chunks (nat_eq (code c) 0x5c) (in_range (code c) b) s in
    if star then ([], new_chunk more) else add_char c more

abbrev with_first : String × List String → List (Bool × String)
with_first ([], stars) = map (λ s. (true, s)) stars
with_first (c ∷ first, stars) = (false, c ∷ first) ∷ map (λ s. (true, s)) stars

-- path.Match(pattern, name): `err == nil && matched`
unfoldable pub path_match : String → String → Bool
unfolding cut_chunks match_chunks
path_match pattern name = match_chunks (with_first (cut_chunks false false pattern)) name
