-- ===== src/Base/Update.antt =====
-- Memory as a function of addresses, and a write to one of them.
use Prim.Native.Nat.{ℕ, ◌+◌, ◌-◌, ◌%◌, ◌^◌}
use open_hsm.Base.Tests.{◌==◌, if◌then◌else◌}

-- An address; 0 is NULL.
abbrev pub Ptr : Type 0
Ptr = ℕ

abbrev pub update {ℓ} : {A : Type ℓ} → (Ptr → A) → Ptr → A → Ptr → A
update h p a q = if q == p then a else h q

-- `p->f = v`: the cell at `p` rewritten by `f`.
abbrev pub modify {ℓ} : {A : Type ℓ} → (Ptr → A) → Ptr → (A → A) → Ptr → A
modify h p f = update h p (f (h p))

abbrev pub null : Ptr
null = 0

-- `uint32_t` arithmetic: `x + 1` and `x - 1`.
abbrev pub u32 : ℕ → ℕ
u32 n = n % 2 ^ 32

abbrev pub inc32 : ℕ → ℕ
inc32 n = u32 (n + 1)

abbrev pub dec32 : ℕ → ℕ
dec32 n = u32 (n + (2 ^ 32 - 1))
