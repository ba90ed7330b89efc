-- ===== src/Ecp/Copy.antt =====
-- What `memcpy_s` and `verify_cmac128` of ecp.cpp promise.
use sgx_experiments.Prelude.{
  ℕ, ◌≤◌, ◌<◌, ◌≡◌, refl, ◌∙◌, ◌⊎◌, ◌↔◌, inl, inr, subst, true, false, same, if◌then◌else◌, Bytes,
  memcpy, same_refl, same→eq, length, take, drop, length-append, length-take, length-drop,
  take-append_le, drop-append_eq, take-all, ltb, Bool-cases, arith,
}
use sgx_experiments.Prelude.Int.{pos}
use sgx_experiments.Codes.{SampleStatus, minus_one, is_success}
use sgx_experiments.Crypto.{Libcrypto}
use sgx_experiments.Ecp.{memcpy_s, verify_cmac128}

module _ (n : ℕ) (src dest : Bytes) (h : n ≤ length src) where
  take-memcpy : take n (memcpy dest src n) ≡ take n src
  take-memcpy =
      take-append_le n (take n src) (drop n dest) (omega (arith, length-take n src))
      ∙ take-all n (take n src) (omega (arith, length-take n src))

  drop-memcpy : drop n (memcpy dest src n) ≡ drop n dest
  drop-memcpy = drop-append_eq n (take n src) (drop n dest) (omega (arith, length-take n src))

  pub length-memcpy : n ≤ length dest → length (memcpy dest src n) ≡ length dest
  length-memcpy fits =
      omega (arith, length-append (take n src) (drop n dest), length-take n src, length-drop n dest)

-- A copy of count bytes from a source that has them into a destination of at least n bytes returns
-- -1 and writes nothing for n < count, and else returns 0 and replaces the first count bytes only;
-- the destination keeps its length.
pub memcpy_s_bounds :
    (dest src : Bytes) (n count : ℕ)
    → n ≤ length dest
    → count ≤ length src
    → (((n < count) × (memcpy_s dest n src count ≡ (minus_one, dest)))
        ⊎ ((count ≤ n)
            × ((memcpy_s dest n src count).0 ≡ pos 0)
            × (take count (memcpy_s dest n src count).1 ≡ take count src)
            × (drop count (memcpy_s dest n src count).1 ≡ drop count dest)))
      × (length (memcpy_s dest n src count).1 ≡ length dest)
unfolding memcpy_s
memcpy_s_bounds dest src n count room enough = elim (Bool-cases (ltb n count)) [
  | inl long ↦ rw long (inl (ground arith, refl), refl)
  | inr fits ↦ rw fits (
    inr (ground arith, refl, take-memcpy count src dest enough, drop-memcpy count src dest enough),
    length-memcpy count src dest enough (ground arith),
  )
]

accepts_iff :
    (status : SampleStatus) (tag data_mac : Bytes)
    → ((if is_success status then same tag data_mac else false) ≡ true)
      ↔ ((is_success status ≡ true) × (tag ≡ data_mac))
accepts_iff status tag data_mac = elim (Bool-cases (is_success status)) [
  | inl e ↦ rw e (
    (λ h. (refl, same→eq tag data_mac h)),
    (λ h. subst (λ t. same tag t ≡ true) h.1 (same_refl tag)),
  )
  | inr e ↦ rw e ((λ h. absurd (ground arith)), (λ h. absurd (ground arith)))
]

-- The check of a MAC accepts exactly when the library computes a MAC over the first buf_size bytes
-- and its 16 bytes are the first 16 of the buffer that is given.
pub verify_cmac128_iff :
    (lib : Libcrypto) (key buf mac : Bytes) (size : ℕ)
    → (verify_cmac128 lib key buf size mac ≡ true) ↔ (
        (is_success (lib.rijndael128_cmac_msg key (take size buf)).0 ≡ true)
        × (take 16 mac ≡ take 16 (lib.rijndael128_cmac_msg key (take size buf)).1))
unfolding verify_cmac128
verify_cmac128_iff lib key buf mac size = accepts_iff _ (take 16 mac) _
