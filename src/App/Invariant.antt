-- ===== src/App/Invariant.antt =====
-- What the App holds at every point of `main`.
pub mod Steps
pub mod Whole
pub mod Start
use sgx_experiments.Prelude.{
  ℕ, ◌+◌, ◌≤◌, ◌≡◌, refl, ◌⊎◌, inl, List, [], ◌∷◌, Option, none, some, length, arith,
}
use sgx_experiments.Sp.State.{Sp}
use sgx_experiments.Sp.Msg0.Registration.{WellFormed}
use sgx_experiments.App.State.{App, start}

abbrev pub held : {A : Type 0} → Option A → ℕ
held none = 0
held (some a) = 1

-- The service provider is well formed, and has no context open that it had not at the start, `s`; a
-- response is held for each pointer to one, and a block for each pointer to one; the last enclave
-- that was created is that of `enclave_id`, with at most `lost` older ones; at most one key context
-- is open, that of `context`.
pub record Holding (s : Sp) (lost : ℕ) (a : App) : Type 0 where
  pub well_formed : WellFormed a.sp
  pub contexts : a.sp.contexts ≡ s.contexts
  pub buffers : a.sp.buffers ≡ s.buffers + held a.msg0_resp + held a.msg2_full
  pub blocks : a.blocks ≡ held a.msg0_full + held a.msg1_full + held a.msg3
  pub enclaves :
      (a.enclaves ≡ [])
      ⊎ ((older : List ℕ) × (a.enclaves ≡ a.enclave_id ∷ older) × (length older ≤ lost))
  pub sessions : (a.sessions ≡ []) ⊎ (a.sessions ≡ a.context ∷ [])

pub start-Holding : (s : Sp) → WellFormed s → Holding s 0 (start s)
start-Holding s w = record {
  well_formed = w;
  contexts = refl;
  buffers = omega arith;
  blocks = refl;
  enclaves = inl refl;
  sessions = inl refl;
}

-- What is still NULL when message 1 and message 2 are awaited, and before the enclave is created.
abbrev pub NoMsg2 : App → Type 0
NoMsg2 a = (a.msg2_full ≡ none) × (a.msg3 ≡ none)

abbrev pub NoMsg1 : App → Type 0
NoMsg1 a = (a.msg1_full ≡ none) × NoMsg2 a

abbrev pub NoEnclave : App → Type 0
NoEnclave a = NoMsg1 a × (a.sessions ≡ []) × (length a.enclaves ≤ 0)

abbrev pub NoMsg0 : App → Type 0
NoMsg0 a = (a.msg0_full ≡ none) × (a.msg0_resp ≡ none) × NoEnclave a
