-- ===== src/OsaHsm/Plain.antt =====
-- A layout of `struct hsm_event` with a place for each field, for runs of core/osa_hsm.c.
use open_hsm.Base.{ℕ, zero, suc, ◌≡◌, refl, ap, ◌==◌, if◌then◌else◌, [], ◌∷◌, ℤ, pos, negsuc}
use open_hsm.Queue.{Message}
use open_hsm.OsaHsm.{Layout}

abbrev sign : ℤ → ℕ
sign (pos n) = 0
sign (negsuc n) = 1

abbrev size_of : ℤ → ℕ
size_of (pos n) = n
size_of (negsuc n) = n

abbrev signed : ℕ → ℕ → ℤ
signed s n = if s == 0 then pos n else negsuc n

pub signed-sign : (z : ℤ) → signed (sign z) (size_of z) ≡ z
signed-sign (pos n) = refl
signed-sign (negsuc n) = refl

abbrev place : ℕ → Message → ℕ
place i [] = 0
place zero (b ∷ bs) = b
place (suc i) (b ∷ bs) = place i bs

-- A signal and its sign take a place each, then the payload and the size.
abbrev pub plain : Layout
plain = record {
  event_size = 4;
  bytes = λ e. sign e.signal ∷ size_of e.signal ∷ e.payload ∷ e.size ∷ [];
  read = λ m. record {
    signal = signed (place 0 m) (place 1 m);
    payload = place 2 m;
    size = place 3 m;
  };
  length-bytes = λ e. refl;
  read-bytes = λ e.
      ap (λ (z : ℤ). record { signal = z; payload = e.payload; size = e.size })
        (signed-sign e.signal);
}
