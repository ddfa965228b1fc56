-- ===== src/Security/Crypto.antt =====
-- What src/security calls in OpenSSL, as a parameter: message digests, and `CRYPTO_memcmp`, whose
-- result is 0 exactly when the two buffers agree.
use signalwire_agents_cpp.Prelude.{
  ℕ, Bytes, Bool, true, false, ◌≡◌, ◌↔◌, length, str_eq, str_eq_iff, if◌then◌else◌, ◌==◌, arith, [],
  ◌∷◌, ap, not,
}

pub record Crypto : Type 0 where
  pub hmac_sha256 : Bytes → Bytes → Bytes
  pub hmac_sha1 : Bytes → Bytes → Bytes
  pub sha256 : Bytes → Bytes
  pub memcmp : Bytes → Bytes → ℕ → ℕ
  pub memcmp_iff : (a b : Bytes) → length a ≡ length b → (memcmp a b (length a) ≡ 0) ↔ (a ≡ b)

module _ (k : Crypto) where
  -- `timing_safe_compare` of the session manager and `safe_eq` of the webhook validator.
  pub timing_safe_compare : Bytes → Bytes → Bool
  timing_safe_compare a b =
      if not (length a == length b) then false else (k.memcmp a b (length a) == 0)

  -- The comparison in constant time decides equality.
  pub timing_safe_compare_iff : (a b : Bytes) → (timing_safe_compare a b ≡ true) ↔ (a ≡ b)
  unfolding timing_safe_compare
  timing_safe_compare_iff a b = (sound, complete)
    where
      sound : timing_safe_compare a b ≡ true → a ≡ b
      sound h = ground (arith, k.memcmp_iff a b)

      complete : a ≡ b → timing_safe_compare a b ≡ true
      complete e = ground (arith, k.memcmp_iff a b, ap length e)

-- A concrete instance, for the tests: toy digests of the right shape, and exact comparison.
abbrev pub toy_memcmp : Bytes → Bytes → ℕ → ℕ
toy_memcmp a b n = if str_eq a b then 0 else 1

pub toy_memcmp_iff : (a b : Bytes) → (toy_memcmp a b (length a) ≡ 0) ↔ (a ≡ b)
toy_memcmp_iff a b = (sound, complete)
  where
    sound : toy_memcmp a b (length a) ≡ 0 → a ≡ b
    sound h = ground (arith, str_eq_iff a b)

    complete : a ≡ b → toy_memcmp a b (length a) ≡ 0
    complete e = ground (arith, str_eq_iff a b)

abbrev pub toy_digest : Bytes → Bytes → Bytes
toy_digest key s = length key ∷ length s ∷ []

abbrev pub toy : Crypto
toy = record {
  hmac_sha256 = toy_digest;
  hmac_sha1 = toy_digest;
  sha256 = λ s. toy_digest [] s;
  memcmp = toy_memcmp;
  memcmp_iff = λ a b _. toy_memcmp_iff a b;
}
