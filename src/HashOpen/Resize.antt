-- ===== src/HashOpen/Resize.antt =====
-- openhash_resize and openhash_set. `alloc` says which of the three allocations of a resize succeed:
-- that of the flags, of the keys and of the values. The arrays of keys and values are moved in place.
pub mod Set
pub mod Carry
pub mod Kick
pub mod Wrote
pub mod Place
pub mod Move
pub mod Rebuild
pub mod Calls
use mathlib.Core.Option
use colossal.Prelude.{
  ℕ, zero, suc, ◌+◌, ◌-◌, ◌*◌, Bool, true, false, ◌&&◌, ◌||◌, not, Option, none, some, ◌==◌, ltb,
  leb, if◌then◌else◌, write,
}
use Prim.Native.Nat.{bit_and}
use colossal.HashOpen.{Flag, is_live, set_del, fresh, OpenHash, Ret, load, next, find_site, place}

-- The loop that looks for a bucket that is empty in the new flags, on fuel.
pub empty_loop : ℕ → (ℕ → Flag) → ℕ → ℕ → ℕ → Option ℕ
empty_loop zero flags mask i step = none
empty_loop (suc n) flags mask i step = elim (flags i).empty [
  | true ↦ some i
  | false ↦ empty_loop n flags mask (next mask i (step + 1)) (step + 1)
]

module _ {ℓ} {K V : Type ℓ} (hashfn : K → ℕ) (equalfn : K → K → Bool) where
  -- The loop `for (;;)` that places a pair and then those that it takes the place of, on fuel: the
  -- table with its old flags, and the new flags.
  pub kick_loop : ℕ → ℕ → OpenHash K V → (ℕ → Flag) → K → V → Option (OpenHash K V × (ℕ → Flag))
  unfolding empty_loop
  kick_loop zero nbucket h flags key val = none
  kick_loop (suc n) nbucket h flags key val =
      let mask = nbucket - 1 in
      elim (empty_loop nbucket flags mask (bit_and (hashfn key) mask) 0) [
        | none ↦ none
        | some i ↦
            let flags' = write flags i (record (flags i) { empty = false }) in
            let placed = record h { keys = write h.keys i key; vals = write h.vals i val } in
            elim (ltb i h.nbucket && is_live (h.flags i)) [
              | true ↦
                  kick_loop n nbucket
                    (record placed { flags = write h.flags i (set_del (h.flags i)) }) flags'
                    (h.keys i) (h.vals i)
              | false ↦ some (placed, flags')
            ]
      ]

  -- The loop over the old buckets, `rest` of them to go.
  pub move_loop : ℕ → ℕ → ℕ → OpenHash K V → (ℕ → Flag) → Option (OpenHash K V × (ℕ → Flag))
  unfolding kick_loop
  move_loop zero j nbucket h flags = some (h, flags)
  move_loop (suc rest) j nbucket h flags = elim (is_live (h.flags j)) [
    | false ↦ move_loop rest (j + 1) nbucket h flags
    | true ↦
        let marked = record h { flags = write h.flags j (set_del (h.flags j)) } in
        elim (kick_loop (h.nelem + 1) nbucket marked flags (h.keys j) (h.vals j)) [
          | none ↦ none
          | some r ↦ move_loop rest (j + 1) nbucket r.0 r.1
        ]
  ]

  -- openhash_resize: the table, and whether it returned 0.
  unfoldable pub resize : (ℕ → Bool) → OpenHash K V → ℕ → Option (OpenHash K V × Bool)
  unfolding move_loop
  resize alloc h nbucket =
      let grows = ltb h.nbucket nbucket in
      let moved = move_loop h.nbucket 0 nbucket h (λ i. fresh) in
      let done =
        Option.map
          (λ r. (
            record r.0 {
              flags = r.1;
              nbucket = nbucket;
              noccupied = h.nelem;
              bound = load nbucket;
            },
            true,
          ))
          moved in
      if leb (load nbucket) h.nelem
      then some (h, false)
      else (if alloc 0 && (not grows || (alloc 1 && alloc 2)) then done else some (h, false))

  -- openhash_set behind the resize: the table, the bucket and `*ret`.
  pub set_key : OpenHash K V → K → Option (OpenHash K V × ℕ × Option Ret)
  set_key h key = elim (find_site hashfn equalfn h key) [
    | none ↦ none
    | some x ↦ let (h', ret) = place hashfn equalfn h key x in some (h', x, some ret)
  ]

  -- openhash_set; where the resize fails, `*ret` is not written.
  unfoldable pub set : (ℕ → Bool) → OpenHash K V → K → Option (OpenHash K V × ℕ × Option Ret)
  unfolding set_key
  set alloc h key = elim (leb h.bound h.noccupied) [
    | false ↦ set_key h key
    | true ↦ elim (resize alloc h (if h.nbucket == 0 then 2 else 2 * h.nbucket)) [
      | none ↦ none
      | some r ↦ elim r.1 [ true ↦ set_key r.0 key | false ↦ some (r.0, r.0.nbucket, none) ]
    ]
  ]
