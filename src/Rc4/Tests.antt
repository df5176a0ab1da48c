-- ===== src/Rc4/Tests.antt =====
-- Runs of RC4, and the theorems at concrete buffers.
use colossal.Prelude.{ℕ, ◌≡◌, refl, some, List, [], ◌∷◌}
use colossal.Rc4.{Ks, rc4_setks, rc4_crypt}
use colossal.Rc4.Permutation.{IsKeyState, Reachable, setks-IsKeyState, Reachable-IsKeyState}

abbrev plain : Ks
plain = record { state = λ i. i; x = 0; y = 0 }

abbrev buffer : List ℕ
buffer = 0x50 ∷ 0x6c ∷ 0x61 ∷ []

abbrev key : List ℕ
key = 0x4b ∷ 0x65 ∷ 0x79 ∷ []

-- The state of the identity gives the key bytes 2, 5 and 7.
crypt_run : (rc4_crypt buffer plain).0 ≡ 0x52 ∷ 0x69 ∷ 0x66 ∷ []
unfolding rc4_crypt
crypt_run = refl

-- rc4_setks of the key, and its key state.
abbrev made : (ks : Ks) × (rc4_setks key plain ≡ some ks) × IsKeyState ks
made = setks-IsKeyState 0x4b (0x65 ∷ 0x79 ∷ []) plain

Reachable-IsKeyState_example : IsKeyState (rc4_crypt buffer made.0).1
Reachable-IsKeyState_example =
    Reachable-IsKeyState (rc4_crypt buffer made.0).1
      (Reachable.crypt buffer (Reachable.start 0x4b (0x65 ∷ 0x79 ∷ []) plain made.1))
