-- ===== src/Ipc/Authentication.antt =====
-- src/ipc/authentication.cpp: the test of the bridge's first message.
use ht2mp.Prelude.{
  ℕ, zero, suc, subst, ◌≡◌, ◌≢◌, ◌↔◌, refl, ap, arith, Bool, true, false, not, ◌||◌, Option, none,
  some, List, [], ◌∷◌, ◌++◌, All, ◌==◌, ==_refl, ==_ne, if◌then◌else◌, bytes_eq, bytes_eq_sound,
  bytes_eq_refl, inl, inr, Option-cases,
}
use ht2mp.Ipc.Types.{BridgeHello, bootstrap_abi_version}

pub data AuthenticationError : Type 0 where
  authenticated abi_mismatch run_id_mismatch nonce_mismatch : AuthenticationError
  malformed_profile profile_mismatch : AuthenticationError

pub record BridgeExpectation : Type 0 where
  pub run_id : ℕ
  pub nonce : List ℕ
  pub profile_id : List ℕ

-- The characters in front of the first terminator, if std::find finds one.
unfoldable pub c_string : List ℕ → Option (List ℕ)
c_string [] = none
c_string (c ∷ cs) =
    let rest = c_string cs in
    if c == 0 then some [] else elim rest [ none ↦ none | some text ↦ some (c ∷ text) ]

unfoldable pub profile_error : Option (List ℕ) → List ℕ → AuthenticationError
profile_error none expected = malformed_profile
profile_error (some []) expected = malformed_profile
profile_error (some (c ∷ cs)) expected =
    if bytes_eq (c ∷ cs) expected then authenticated else profile_mismatch

unfoldable pub authenticate_bridge_hello : BridgeHello → BridgeExpectation → AuthenticationError
authenticate_bridge_hello hello expected =
    if not (hello.abi_version == bootstrap_abi_version)
    then abi_mismatch
    else if not (hello.run_id == expected.run_id) || expected.run_id == 0
    then run_id_mismatch
    else if not (bytes_eq hello.nonce expected.nonce)
    then nonce_mismatch
    else profile_error (c_string hello.profile_id) expected.profile_id

-- An array that begins with a text and its terminator.
abbrev pub HoldsText : List ℕ → List ℕ → Type 0
HoldsText bytes text = All (λ c. c ≢ 0) text × ((padding : List ℕ) × (bytes ≡ text ++ 0 ∷ padding))

HoldsText-cons :
    (c : ℕ) (bytes text : List ℕ) → c ≢ 0 → HoldsText bytes text → HoldsText (c ∷ bytes) (c ∷ text)
HoldsText-cons c bytes text h (clean, (padding, e)) = ((h, clean), (padding, ap (λ cs. c ∷ cs) e))

c_string_sound : (bytes text : List ℕ) → c_string bytes ≡ some text → HoldsText bytes text
unfolding c_string
c_string_sound [] text e = cc
c_string_sound (zero ∷ cs) text e = some_nil text e
  where
    some_nil : (text : List ℕ) → some [] ≡ some text → HoldsText (0 ∷ cs) text
    some_nil [] e = (tt, (cs, refl))
    some_nil (c ∷ text) e = cc
c_string_sound (suc c ∷ cs) text e =
    let nonzero = ==_ne (suc c) 0 (omega arith) in
    elim (Option-cases (c_string cs)) [
      | inl nothing ↦ let fails : none ≡ some text = rw (nothing, nonzero) at e in absurd cc
      | inr (rest, found) ↦
          let finds : some (suc c ∷ rest) ≡ some text = rw (found, nonzero) at e in
          let same : suc c ∷ rest ≡ text = cc in
          subst (HoldsText (suc c ∷ cs)) same
            (HoldsText-cons (suc c) cs rest (omega arith) (c_string_sound cs rest found))
    ]

c_string_complete :
    (text padding : List ℕ) → All (λ c. c ≢ 0) text → c_string (text ++ 0 ∷ padding) ≡ some text
unfolding c_string
c_string_complete [] padding h = refl
c_string_complete (c ∷ text) padding h = rw (==_ne c 0 h.0, c_string_complete text padding h.1) refl

-- What the sidecar asks of a hello.
pub record Authentic (hello : BridgeHello) (expected : BridgeExpectation) : Type 0 where
  pub same_abi : hello.abi_version ≡ bootstrap_abi_version
  pub same_run : hello.run_id ≡ expected.run_id
  pub run_nonzero : expected.run_id ≢ 0
  pub same_nonce : hello.nonce ≡ expected.nonce
  pub some_profile : expected.profile_id ≢ []
  pub same_profile : HoldsText hello.profile_id expected.profile_id

profile_error_sound :
    (found : Option (List ℕ)) (expected : List ℕ)
    → profile_error found expected ≡ authenticated
    → (found ≡ some expected) × (expected ≢ [])
unfolding profile_error
profile_error_sound none expected e = cc
profile_error_sound (some []) expected e = cc
profile_error_sound (some (c ∷ cs)) expected e =
    let same : c ∷ cs ≡ expected = bytes_eq_sound (c ∷ cs) expected (ground arith) in
    (ap some same, (λ empty. cc))

profile_error_complete :
    (expected : List ℕ) → expected ≢ [] → profile_error (some expected) expected ≡ authenticated
unfolding profile_error
profile_error_complete [] h = absurd (h refl)
profile_error_complete (c ∷ cs) h = rw (bytes_eq_refl (c ∷ cs)) refl

-- A test that was passed.
passed :
    (b : Bool) (x y : AuthenticationError)
    → x ≢ authenticated
    → (if b then x else y) ≡ authenticated
    → (b ≡ false) × (y ≡ authenticated)
passed true x y h e = absurd (h e)
passed false x y h e = (refl, e)

-- A hello is authenticated exactly when its ABI version, run and nonce are the expected ones, the
-- run is not 0, and its profile array begins with the expected profile, which is not empty and has
-- no zero byte, and a terminator.
pub authenticate_bridge_hello_lem :
    (hello : BridgeHello) (expected : BridgeExpectation)
    → (authenticate_bridge_hello hello expected ≡ authenticated) ↔ Authentic hello expected
unfolding authenticate_bridge_hello
authenticate_bridge_hello_lem hello expected = (sound, complete)
  where
    sound : authenticate_bridge_hello hello expected ≡ authenticated → Authentic hello expected
    sound e =
        let (abi, after_abi) =
          passed (not (hello.abi_version == bootstrap_abi_version)) abi_mismatch _ (λ same. cc) e in
        let (run, after_run) =
          passed (not (hello.run_id == expected.run_id) || expected.run_id == 0) run_id_mismatch _
            (λ same. cc) after_abi in
        let (nonce, after_nonce) =
          passed (not (bytes_eq hello.nonce expected.nonce)) nonce_mismatch _ (λ same. cc)
            after_run in
        let (found, some_profile) = profile_error_sound _ expected.profile_id after_nonce in
        record {
          same_abi = ground (arith, abi);
          same_run = ground (arith, run);
          run_nonzero = ground (arith, run);
          same_nonce = bytes_eq_sound hello.nonce expected.nonce (ground arith);
          some_profile = some_profile;
          same_profile = c_string_sound hello.profile_id expected.profile_id found;
        }

    complete : Authentic hello expected → authenticate_bridge_hello hello expected ≡ authenticated
    complete h =
        let (clean, (padding, e)) = h.same_profile in
        let found : c_string hello.profile_id ≡ some expected.profile_id =
          rw e (c_string_complete expected.profile_id padding clean) in
        rw
          (
            h.same_abi,
            h.same_run,
            h.same_nonce,
            ==_refl expected.run_id,
            ==_ne expected.run_id 0 h.run_nonzero,
            bytes_eq_refl expected.nonce,
            found,
          )
          (profile_error_complete expected.profile_id h.some_profile)
