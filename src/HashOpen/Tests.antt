-- ===== src/HashOpen/Tests.antt =====
-- Runs of open hashing on numbers, with resizes, and the theorems at concrete tables.
use colossal.Prelude.{
  ℕ, ◌-◌, ◌<◌, ◌≡◌, ◌≢◌, refl, Bool, true, Option, none, some, arith, List, [], ◌∷◌, ◌==◌, ◌^◌,
}
use colossal.HashOpen.{OpenHash, init, fresh, clear, get, del, find_site}
use colossal.HashOpen.Table.{IsKey, read}
use colossal.HashOpen.Probe.{probe, probe-covers}
use colossal.HashOpen.Erase.{remove}
use colossal.HashOpen.Fill.{insert, set_value}
use colossal.HashOpen.Insert.{put}
use colossal.HashOpen.Resize.{resize, set}
use colossal.HashOpen.Resize.Set.{IsOpen, Sets, init-IsOpen, set-Sets}
use colossal.HashOpen.Resize.Calls.{get-IsOpen, del-IsOpen}

abbrev hashfn : ℕ → ℕ
hashfn key = key

abbrev equalfn : ℕ → ℕ → Bool
equalfn a b = a == b

laws : IsKey hashfn equalfn
laws = record {
  same = λ a. ground arith;
  turn = λ a b h. ground arith;
  chain = λ a b c h g. ground arith;
  hash = λ a b h. ground arith;
}

-- The table of openhash_init.
abbrev start : OpenHash ℕ ℕ
start = init (λ i. fresh) (λ i. 0) (λ i. 0)

abbrev nothing : ℕ → Option ℕ
nothing key = none

start-IsOpen : IsOpen hashfn equalfn start nothing
start-IsOpen = init-IsOpen hashfn equalfn (λ i. fresh) (λ i. 0) (λ i. 0)

-- A table of four empty buckets.
abbrev table : OpenHash ℕ ℕ
table = record start { nbucket = 4; bound = 2 }

-- openhash_clear gives the same one.
table-clear : clear hashfn equalfn (record table { nelem = 1; noccupied = 2 }) ≡ table
unfolding clear
table-clear = refl

-- The keys 1 and 5 meet in bucket 1; the second one goes to bucket 2.
abbrev one : OpenHash ℕ ℕ
one = put hashfn equalfn table 1 1 10

second_site : find_site hashfn equalfn one 5 ≡ some 2
unfolding find_site
second_site = refl

-- A table with one key, and the map for it.
one_key : ℕ → Option ℕ
one_key = insert hashfn equalfn nothing 1 10

added : Sets hashfn equalfn (set hashfn equalfn (λ i. true) start 1) nothing 1 10
added = set-Sets hashfn equalfn laws (λ i. true) start 1 10 nothing refl refl refl start-IsOpen

grown : OpenHash ℕ ℕ
grown = set_value hashfn equalfn added.0 added.1 10

grown-IsOpen : IsOpen hashfn equalfn grown one_key
unfolding grown one_key
grown-IsOpen = added.4

set-Sets_example : Sets hashfn equalfn (set hashfn equalfn (λ i. true) grown 5) one_key 5 50
set-Sets_example =
    set-Sets hashfn equalfn laws (λ i. true) grown 5 50 one_key refl refl refl grown-IsOpen

get-IsOpen_example :
    (x : ℕ) × (get hashfn equalfn grown 5 ≡ some x) × (read hashfn equalfn grown x ≡ one_key 5)
get-IsOpen_example = get-IsOpen hashfn equalfn laws grown one_key 5 grown-IsOpen

del-IsOpen_example :
    (x : ℕ) × (get hashfn equalfn grown 1 ≡ some x)
    × IsOpen hashfn equalfn (del hashfn equalfn grown x) (remove hashfn equalfn one_key 1)
del-IsOpen_example = del-IsOpen hashfn equalfn laws grown one_key 1 grown-IsOpen

-- The pairs of a list set one after the other in a table of openhash_init.
abbrev add_all : List (ℕ × ℕ) → OpenHash ℕ ℕ → Option (OpenHash ℕ ℕ)
unfolding set
add_all [] h = some h
add_all ((key, v) ∷ pairs) h = elim (set hashfn equalfn (λ i. true) h key) [
  | none ↦ none
  | some r ↦ add_all pairs (set_value hashfn equalfn r.0 r.1 v)
]

abbrev look : ℕ → Option (OpenHash ℕ ℕ) → Option ℕ
unfolding get
look key none = none
look key (some h) = elim (get hashfn equalfn h key) [
  | none ↦ none
  | some x ↦ read hashfn equalfn h x
]

abbrev pairs : List (ℕ × ℕ)
pairs = (1, 10) ∷ (5, 50) ∷ (9, 90) ∷ (2, 20) ∷ (5, 55) ∷ []

-- Three resizes move the pairs, and each key keeps its value.
resized : look 5 (add_all pairs start) ≡ some 55
unfolding look add_all resize find_site
resized = refl

resized_collision : look 9 (add_all pairs start) ≡ some 90
unfolding look add_all resize find_site
resized_collision = refl

resized_absent : look 3 (add_all pairs start) ≡ none
unfolding look add_all resize find_site
resized_absent = refl

probe-covers_example :
    ((i : ℕ) → i < 2 ^ 2 → (s : ℕ) × (s < 2 ^ 2) × (probe (2 ^ 2 - 1) 7 s ≡ i))
    × ((s : ℕ) → 0 < s → s < 2 ^ 2 → probe (2 ^ 2 - 1) 7 s ≢ probe (2 ^ 2 - 1) 7 0)
probe-covers_example = probe-covers 2 7
