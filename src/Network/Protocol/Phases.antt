-- ===== src/Network/Protocol/Phases.antt =====
-- The phases of the abstract machine, and the states that are in them.
use sgx_experiments.Prelude.{
  ℕ, ◌≡◌, refl, ap, ◌∙◌, inl, inr, true, false, Bool-cases, ◌++◌, drop-all, none, some, Bytes,
  memcpy, length, ◌==◌, arith,
}
use sgx_experiments.Ias.{sim_spid}
use sgx_experiments.Sp.State.{Sp}
use sgx_experiments.Sp.Msg0.Registration.{WellFormed, epid_group, registration}
use sgx_experiments.Sp.Msg1.Answer.{Kept}
use sgx_experiments.Network.Protocol.{Phase, unregistered, registered, joined}

-- The state of the service provider in a phase.
abbrev pub Represents : Phase → Sp → Type 0
Represents unregistered s =
    (s.is_sp_registered ≡ false) × (s.sp_extended_epid_group_id ≡ none) × (length s.spid ≡ 16)
Represents registered s =
    (s.is_sp_registered ≡ true)
    × (s.sp_extended_epid_group_id ≡ some epid_group)
    × (s.spid ≡ sim_spid)

pub Represents-WellFormed : (p : Phase) (s : Sp) → Represents p s → WellFormed s
Represents-WellFormed unregistered s (fresh, empty, size) = inl (fresh, empty)
Represents-WellFormed registered s (known, chosen, named) = inr (known, chosen)

memcpy-sim_spid : (dest : Bytes) → length dest ≡ 16 → memcpy dest sim_spid 16 ≡ sim_spid
memcpy-sim_spid dest l = ap (λ t. sim_spid ++ t) (drop-all 16 dest (omega arith))

pub registration-Represents :
    (p : Phase) (s : Sp) (wanted : ℕ)
    → Represents p s
    → Represents (joined wanted p) (registration wanted s)
registration-Represents registered s wanted (known, chosen, named) =
    elim (Bool-cases (wanted == 0)) [
      | inl e ↦ simp (e, known) (refl, chosen, named)
      | inr e ↦ simp e (known, chosen, named)
    ]
registration-Represents unregistered s wanted (fresh, empty, size) =
    elim (Bool-cases (wanted == 0)) [
      | inl e ↦ simp (e, fresh) (refl, refl, memcpy-sim_spid s.spid size)
      | inr e ↦ simp e (fresh, empty, size)
    ]

-- The count of buffers does not matter.
pub Represents-buffers :
    (p : Phase) (s : Sp) (n : ℕ) → Represents p s → Represents p (record s { buffers = n })
Represents-buffers unregistered s n h = h
Represents-buffers registered s n h = h

pub Kept-Represents :
    (n : ℕ) (s t : Sp) → Kept n s t → Represents registered s → Represents registered t
Kept-Represents n s t k (known, chosen, named) =
    (k.same_registered ∙ known, k.same_group ∙ chosen, k.same_spid ∙ named)
