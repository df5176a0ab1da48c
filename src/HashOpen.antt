-- ===== src/HashOpen.antt =====
-- ulib/src/base/hash_open_prot.h: open hashing with triangular probing. The words of flags are the two
-- bits of each bucket, and a table is a map (`ismap`). The hash and the test of keys are the
-- parameters of the macro, and what an allocation returns is a parameter too.
pub mod Probe
pub mod Table
pub mod Steps
pub mod Find
pub mod Erase
pub mod Site
pub mod Fill
pub mod Insert
pub mod Clear
pub mod Resize
mod Tests
use colossal.Prelude.{
  ℕ, zero, suc, ◌+◌, ◌-◌, ◌*◌, ◌/◌, ◌%◌, Bool, true, false, ◌&&◌, ◌||◌, not, Option, none, some,
  ◌==◌, ltb, leb, if◌then◌else◌, write,
}
use Prim.Native.Nat.{bit_and}

-- The bits of one bucket: OH_ISEMPTY and OH_ISDEL.
pub record Flag : Type 0 where
  empty : Bool
  deleted : Bool

-- OH_ISEITHER of the bucket is 0.
abbrev pub is_live : Flag → Bool
is_live f = not (f.empty || f.deleted)

abbrev pub clear_both : Flag → Flag
clear_both f = record f { empty = false; deleted = false }

abbrev pub set_del : Flag → Flag
set_del f = record f { deleted = true }

-- A bucket after the memset by 0xaa.
abbrev pub fresh : Flag
fresh = record { empty = true; deleted = false }

-- openhash_t
pub record OpenHash {ℓ} (K V : Type ℓ) : Type ℓ where
  nbucket : ℕ
  nelem : ℕ
  noccupied : ℕ
  bound : ℕ
  flags : ℕ → Flag
  keys : ℕ → K
  vals : ℕ → V

-- openhash_init: all fields are zero; the arrays, not allocated yet, are what is given.
abbrev pub init {ℓ} : {K V : Type ℓ} → (ℕ → Flag) → (ℕ → K) → (ℕ → V) → OpenHash K V
init flags keys vals = record {
  nbucket = 0;
  nelem = 0;
  noccupied = 0;
  bound = 0;
  flags = flags;
  keys = keys;
  vals = vals;
}

-- OH_INS_ERR, OH_INS_NEW and OH_INS_DEL
pub data Ret : Type 0 where
  ins_err : Ret
  ins_new : Ret
  ins_del : Ret

-- `nbucket * OH_LOAD_FACTOR`, cut to an integer, for a power of two below 2 ^ 50
abbrev pub load : ℕ → ℕ
load nbucket = nbucket * 7 / 10

-- `(i + step) & mask`
abbrev pub next : ℕ → ℕ → ℕ → ℕ
next mask i step = bit_and (i + step) mask

module _ {ℓ} {K V : Type ℓ} (hashfn : K → ℕ) (equalfn : K → K → Bool) where
  -- openhash_clear
  unfoldable pub clear : OpenHash K V → OpenHash K V
  clear h = if h.nbucket == 0 then h else record h { flags = λ i. fresh; nelem = 0; noccupied = 0 }

  -- The condition of the loops of openhash_get and openhash_set.
  abbrev pub goes_on : OpenHash K V → K → ℕ → Bool
  goes_on h key i = not (h.flags i).empty && ((h.flags i).deleted || not (equalfn (h.keys i) key))

  -- The loop of openhash_get, on fuel, with the return behind it.
  pub get_loop : ℕ → OpenHash K V → K → ℕ → ℕ → ℕ → Option ℕ
  get_loop zero h key i step last = none
  get_loop (suc n) h key i step last = elim (goes_on h key i) [
    | true ↦
        let j = next (h.nbucket - 1) i (step + 1) in
        elim (j == last) [ true ↦ some h.nbucket | false ↦ get_loop n h key j (step + 1) last ]
    | false ↦ some (if (h.flags i).empty then h.nbucket else i)
  ]

  -- openhash_get
  unfoldable pub get : OpenHash K V → K → Option ℕ
  unfolding get_loop
  get h key =
      let i = bit_and (hashfn key) (h.nbucket - 1) in
      if h.nbucket == 0 then some 0 else get_loop (2 * h.nbucket) h key i 0 i

  -- The loop of openhash_set: the bucket where it ends, `site` and `x`.
  pub set_loop : ℕ → OpenHash K V → K → ℕ → ℕ → ℕ → ℕ → Option (ℕ × ℕ × ℕ)
  set_loop zero h key i step last site = none
  set_loop (suc n) h key i step last site = elim (goes_on h key i) [
    | true ↦
        let s = if (h.flags i).deleted then i else site in
        let j = next (h.nbucket - 1) i (step + 1) in
        elim (j == last) [ true ↦ some (j, s, s) | false ↦ set_loop n h key j (step + 1) last s ]
    | false ↦ some (i, site, h.nbucket)
  ]

  -- The bucket that the search of openhash_set chooses.
  abbrev pub choose : OpenHash K V → ℕ × ℕ × ℕ → ℕ
  choose h (i, site, x) =
      if x == h.nbucket
      then (if (h.flags i).empty && not (site == h.nbucket) then site else i)
      else x

  -- The search of openhash_set from the first bucket on.
  pub find_from : OpenHash K V → K → ℕ → Option ℕ
  unfolding set_loop
  find_from h key i = elim (h.flags i).empty [
    | true ↦ some i
    | false ↦ elim (set_loop (2 * h.nbucket) h key i 0 i h.nbucket) [
      | none ↦ none
      | some r ↦ some (choose h r)
    ]
  ]

  unfoldable pub find_site : OpenHash K V → K → Option ℕ
  unfolding find_from
  find_site h key = find_from h key (bit_and (hashfn key) (h.nbucket - 1))

  -- The end of openhash_set.
  abbrev pub place : OpenHash K V → K → ℕ → OpenHash K V × Ret
  place h key x =
      let filled = record h {
        keys = write h.keys x key;
        flags = write h.flags x (clear_both (h.flags x));
        nelem = h.nelem + 1;
      } in
      if (h.flags x).empty
      then (record filled { noccupied = h.noccupied + 1 }, ins_new)
      else (if (h.flags x).deleted then (filled, ins_del) else (h, ins_err))

  -- openhash_del
  unfoldable pub del : OpenHash K V → ℕ → OpenHash K V
  del h x =
      if not (x == h.nbucket) && is_live (h.flags x)
      then record h { flags = write h.flags x (set_del (h.flags x)); nelem = h.nelem - 1 }
      else h
