-- ===== src/HashOpen/Clear.antt =====
-- openhash_clear takes all keys from the map.
use colossal.Prelude.{ℕ, ◌^◌, ◌≡◌, refl, Bool, false, not, none, arith, not_both, ◌==◌, count-none}
use colossal.Prelude.Bits.{pow_pos}
use colossal.HashOpen.{is_live, fresh, OpenHash, clear}
use colossal.HashOpen.Table.{Models}

module _ {ℓ} {K V : Type ℓ} (hashfn : K → ℕ) (equalfn : K → K → Bool) where
  abbrev cleared : OpenHash K V → OpenHash K V
  cleared h = record h { flags = λ i. fresh; nelem = 0; noccupied = 0 }

  cleared-Models :
      (h : OpenHash K V) (k : ℕ)
      → h.nbucket ≡ 2 ^ k
      → Models hashfn equalfn (cleared h) (λ key. none)
  cleared-Models h k e = record {
    table = record {
      exponent = k;
      power = e;
      occupied = count-none (λ f. not f.empty) (λ i. fresh) h.nbucket (λ i l. refl);
      elements = count-none is_live (λ i. fresh) h.nbucket (λ i l. refl);
      room = omega (arith, pow_pos k);
      met = λ i l a. absurd (not_both false a refl);
      single = λ i j l m a b q. absurd (not_both false a refl);
    };
    holds = λ i key l a q. absurd (not_both false a refl);
    absent = λ key gone. refl;
  }

  -- If the number of buckets is a power of two, openhash_clear leaves a table that stands for the empty
  -- map.
  pub clear-Models :
      (h : OpenHash K V) (k : ℕ)
      → h.nbucket ≡ 2 ^ k
      → Models hashfn equalfn (clear hashfn equalfn h) (λ key. none)
  unfolding clear
  clear-Models h k e =
      let some_bucket : (h.nbucket == 0) ≡ false = ground (arith, pow_pos k) in
      rw some_bucket (cleared-Models h k e)
