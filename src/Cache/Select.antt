-- ===== src/Cache/Select.antt =====
-- internal/protocol/cache/planner.go: the choice of message breakpoints,
-- `evenlySpacedMessageBreakpoints` and `selectedMessageBreakpoints`, and `itoa`.
pub mod Spacing
pub mod Chosen
use Prim.Native.String.{◌++◌ as append}
use moon_bridge.Prelude.{
  ℕ, zero, suc, ◌+◌, ◌-◌, ◌*◌, ◌/◌, ◌%◌, String, Bool, false, not, ◌||◌, Option, none, some, List,
  [], ◌∷◌, ◌++◌, leb, ltb, if◌then◌else◌, ◌==◌, nat_comparable, string_comparable, length, is_empty,
  get_elem?,
}
use moon_bridge.Prelude.Int.{ℤ, negsuc}

-- internal/protocol/cache/exported.go
pub record MessageBreakpointCandidate : Type 0 where
  pub message_index : ℕ
  pub content_index : ℤ
  pub block_path : String
  pub hash : String
  pub role : String

abbrev pub Candidates : Type 0
Candidates = List MessageBreakpointCandidate

-- The byte `'0' + value % 10` as a text.
abbrev digit : ℕ → String
digit zero = "0"
digit (suc zero) = "1"
digit (suc (suc zero)) = "2"
digit (suc (suc (suc zero))) = "3"
digit (suc (suc (suc (suc zero)))) = "4"
digit (suc (suc (suc (suc (suc zero))))) = "5"
digit (suc (suc (suc (suc (suc (suc zero)))))) = "6"
digit (suc (suc (suc (suc (suc (suc (suc zero))))))) = "7"
digit (suc (suc (suc (suc (suc (suc (suc (suc zero)))))))) = "8"
digit _ = "9"

-- The loop of `itoa`. The fuel is the length of its buffer, 20 bytes, which is enough for every
-- 64-bit number; Go would fault where the fuel ends.
digits_of : ℕ → ℕ → String → String
digits_of zero value text = text
digits_of (suc room) value text =
    let rest = digits_of room (value / 10) (append (digit (value % 10)) text) in
    if ltb 0 value then rest else text

unfoldable pub itoa : ℕ → String
unfolding digits_of
itoa value = if value == 0 then "0" else digits_of 20 value ""

-- `_, ok := seen[index]`
pub contains : ℕ → List ℕ → Bool
contains i [] = false
contains i (j ∷ js) = j == i || contains i js

-- The index of one slot of the loop, 1 ≤ slot ≤ limit.
pub slot_index : ℕ → ℕ → ℕ → ℕ
slot_index count limit slot =
    let index = (slot * count + limit - 1) / limit in
    let index' = if ltb 0 index then index - 1 else index in
    if leb count index' then count - 1 else index'

-- `append(selected, candidates[index])`; an index out of range would be a fault.
abbrev pub take_at : Candidates → ℕ → Candidates → Candidates
take_at cs i selected = elim (get_elem? cs i) [ none ↦ selected | some c ↦ selected ++ c ∷ [] ]

-- One round: skip an index that was seen, else note it and take the candidate.
pub visit : Candidates → ℕ → List ℕ × Candidates → List ℕ × Candidates
unfolding contains
visit cs i (seen, selected) =
    if contains i seen then (seen, selected) else (i ∷ seen, take_at cs i selected)

-- The loop over the slots, with the number of rounds left and the slot.
pub slot_loop : ℕ → ℕ → Candidates → ℕ → List ℕ × Candidates → List ℕ × Candidates
slot_loop zero slot cs limit state = state
slot_loop (suc rounds) slot cs limit state =
    slot_loop rounds (slot + 1) cs limit (visit cs (slot_index (length cs) limit slot) state)

-- The loop that fills up from the front.
pub fill_loop : ℕ → Candidates → ℕ → List ℕ → Candidates → Candidates
fill_loop index [] limit seen selected = selected
fill_loop index (c ∷ cs) limit seen selected =
    if leb limit (length selected)
    then selected
    else fill_loop (index + 1) cs limit seen
        (if contains index seen then selected else selected ++ c ∷ [])

-- `evenlySpacedMessageBreakpoints`. A limit that is negative in Go acts as 0.
unfoldable pub evenly_spaced : Candidates → ℕ → Candidates
unfolding visit slot_loop slot_index fill_loop
evenly_spaced cs limit =
    if limit == 0 || is_empty cs
    then []
    else if leb (length cs) limit
    then cs
    else let (seen, selected) = slot_loop limit 1 cs limit ([], []) in
      if leb limit (length selected) then selected else fill_loop 0 cs limit seen selected

pub users : Candidates → Candidates
users [] = []
users (c ∷ cs) = let rest = users cs in if c.role == "user" then c ∷ rest else rest

unfoldable pub has_path : String → Candidates → Bool
has_path p [] = false
has_path p (c ∷ cs) = c.block_path == p || has_path p cs

-- The candidates whose path is not among the paths of the selected ones.
pub unused : Candidates → Candidates → Candidates
unused selected [] = []
unused selected (c ∷ cs) =
    let rest = unused selected cs in if has_path c.block_path selected then rest else c ∷ rest

-- The candidates of an input: its own, or one for the last message if it names none.
unfoldable pub candidates_of : Candidates → ℕ → String → Candidates
unfolding itoa
candidates_of (c ∷ cs) message_count prefix_hash = c ∷ cs
candidates_of [] zero prefix_hash = []
candidates_of [] (suc last) prefix_hash =
    record {
      message_index = last;
      content_index = negsuc 0;
      block_path = append "messages[" (append (itoa last) "].content[last]");
      hash = prefix_hash;
      role = "";
    }
    ∷ []

-- `selectedMessageBreakpoints`, on the candidates of the input.
unfoldable pub select : Candidates → ℕ → Candidates
select cs limit =
    if limit == 0 || is_empty cs
    then []
    else let selected = evenly_spaced (users cs) limit in
      if leb limit (length selected)
      then selected
      else selected ++ evenly_spaced (unused selected cs) (limit - length selected)
