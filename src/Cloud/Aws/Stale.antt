-- ===== src/Cloud/Aws/Stale.antt =====
-- The session secret of another object: `getSecret` in src/cloud/aws.cpp.
use myblob.Base.{ℕ, ◌≡◌, ◌≢◌, refl, true, false, some, ◌==◌, Bool-cases, inl, inr, arith}
use myblob.Cloud.Aws.{
  Secret, Aws, ThreadLocals, usable, valid_session, take_secret, take_session_secret, get_secret,
  is_some,
}

abbrev taken : Aws → ThreadLocals → ThreadLocals
taken aws t = record t { secret = aws.global_secret; valid_instance = some aws.self }

take_secret-switch :
    (aws : Aws) (t : ThreadLocals) (other : ℕ)
    → t.valid_instance ≡ some other
    → other ≢ aws.self
    → take_secret aws t ≡ taken aws t
unfolding take_secret
take_secret-switch aws t other v n =
    let b : (other == aws.self) ≡ false = ground arith in
    elim (Bool-cases (is_some t.secret)) [ inl e ↦ rw (v, b, e) refl | inr e ↦ rw e refl ]

take_session_secret-keep :
    (aws : Aws) (t : ThreadLocals) (s : Secret)
    → t.valid_instance ≡ some aws.self
    → t.session_secret ≡ some s
    → take_session_secret aws t ≡ t
unfolding take_session_secret
take_session_secret-keep aws t s v e =
    let b : (aws.self == aws.self) ≡ true = ground arith in
    elim (Bool-cases aws.settings.zonal) [ inl z ↦ rw (z, e, v, b) refl | inr z ↦ rw z refl ]

-- Where a thread has last served another object, with a session secret that can be used, `getSecret`
-- keeps that session secret, and it passes for a valid one of this object.
pub get_secret-stale :
    (aws : Aws) (t : ThreadLocals) (s : Secret) (other offset now : ℕ)
    → aws.settings.zonal ≡ true
    → t.valid_instance ≡ some other
    → other ≢ aws.self
    → t.session_secret ≡ some s
    → usable offset now (some s) ≡ true
    → ((get_secret aws t).session_secret ≡ some s)
      × (valid_session offset now aws (get_secret aws t) ≡ true)
unfolding get_secret valid_session
get_secret-stale aws t s other offset now z v n e u =
    let b : (aws.self == aws.self) ≡ true = ground arith in
    rw (take_secret-switch aws t other v n, take_session_secret-keep aws (taken aws t) s refl e)
      (e, rw (e, b, u) refl)
