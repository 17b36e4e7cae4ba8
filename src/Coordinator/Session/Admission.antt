-- ===== src/Coordinator/Session/Admission.antt =====
-- Which clients accept admits, and what a refusal leaves behind.
use ht2mp.Prelude.{
  ℕ, ◌≤◌, ◌<◌, ◌≡◌, refl, sym, ap, subst, ◌≢◌, true, false, List, [], ◌∷◌, ◌++◌, All, length, arith,
  leb, any, Bool-cases, inl, inr, ◌⊎◌, bytes_eq, bytes_eq_sound, bytes_eq_refl, ◌==◌,
}
use ht2mp.Prelude.Text.{text, to_string}
use ht2mp.Protocol.Types.{
  Message, ClientHello, DisconnectReason, protocol_error, profile_mismatch, token_mismatch,
  session_full, duplicate_name,
}
use ht2mp.Protocol.Validation.{ValidationCode, Validation, valid, invalid, validate_hello}
use ht2mp.Coordinator.Peers.{contains, find-none, find-absent}
use ht2mp.Coordinator.Session.{
  AuthenticationMode, SessionConfig, Route, DispatchResult, Peer, Session, rejected, token_refused,
  admit, accept,
}

-- A token is asked for in one of the two modes only.
abbrev pub MayEnter : SessionConfig → ClientHello → Type 0
MayEnter c hello = (c.authentication ≡ AuthenticationMode.public_access) ⊎ (hello.token ≡ c.token)

abbrev pub NewConnection : Session → ℕ → Type 0
NewConnection s connection = All (λ e. e.0 ≢ connection) s.peers

abbrev pub NewName : Session → List ℕ → Type 0
NewName s name = All (λ e. e.1.info.display_name ≢ name) s.peers

-- What accept asks of a client.
pub record Admissible (s : Session) (connection : ℕ) (hello : ClientHello) : Type 0 where
  pub nonzero : connection ≢ 0
  pub unregistered : NewConnection s connection
  pub well_formed : validate_hello hello s.config.limits ≡ valid
  pub same_profile : hello.profile_id ≡ s.config.profile_id
  pub authenticated : MayEnter s.config hello
  pub has_room : length s.peers < s.config.max_players
  pub new_name : NewName s hello.display_name

-- The fault that a reason to disconnect names.
pub data Fault (s : Session) (connection : ℕ) (hello : ClientHello)
    : DisconnectReason → Type 0 where
  zero_connection : connection ≡ 0 → Fault s connection hello protocol_error
  registered : ¬ NewConnection s connection → Fault s connection hello protocol_error
  malformed : validate_hello hello s.config.limits ≢ valid → Fault s connection hello protocol_error
  other_profile : hello.profile_id ≢ s.config.profile_id → Fault s connection hello profile_mismatch
  wrong_token : ¬ MayEnter s.config hello → Fault s connection hello token_mismatch
  full : s.config.max_players ≤ length s.peers → Fault s connection hello session_full
  taken : ¬ NewName s hello.display_name → Fault s connection hello duplicate_name

pub Fault-Admissible :
    (s : Session) (connection : ℕ) (hello : ClientHello) (reason : DisconnectReason)
    → Fault s connection hello reason
    → ¬ Admissible s connection hello
Fault-Admissible s connection hello _ (Fault.zero_connection h) a = a.nonzero h
Fault-Admissible s connection hello _ (Fault.registered h) a = h a.unregistered
Fault-Admissible s connection hello _ (Fault.malformed h) a = h a.well_formed
Fault-Admissible s connection hello _ (Fault.other_profile h) a = h a.same_profile
Fault-Admissible s connection hello _ (Fault.wrong_token h) a = h a.authenticated
Fault-Admissible s connection hello _ (Fault.full h) a = omega (arith, a.has_room)
Fault-Admissible s connection hello _ (Fault.taken h) a = h a.new_name

-- The one message of a refusal.
abbrev pub farewell : ℕ → DisconnectReason → List ℕ → List Route
farewell connection reason detail =
    record {
      target = connection;
      message = Message.disconnect (record { reason = reason; detail = detail });
    }
    ∷ []

-- A refusal: the client is told to disconnect, and why; the session is as it was.
pub record Refused (s : Session) (connection : ℕ) (hello : ClientHello)
    (r : DispatchResult × Session) : Type 0 where
  pub not_accepted : r.0.accepted ≡ false
  pub faulty : Fault s connection hello r.0.reason
  pub told : r.0.routes ≡ farewell connection r.0.reason r.0.detail
  pub unchanged : r.1 ≡ s

module _ (s : Session) (connection : ℕ) (hello : ClientHello) (now : ℕ) where
  refusal :
      (reason : DisconnectReason) (detail : List ℕ)
      → Fault s connection hello reason
      → accept s connection hello now ≡ (rejected connection reason detail, s)
      → Refused s connection hello (accept s connection hello now)
  unfolding rejected
  refusal reason detail fault e =
      subst (Refused s connection hello) (sym e)
        (record { not_accepted = refl; faulty = fault; told = refl; unchanged = refl })

  abbrev pub Outcome : Type 0
  Outcome =
      (Admissible s connection hello
        × (accept s connection hello now ≡ admit s connection hello now))
      ⊎ Refused s connection hello (accept s connection hello now)

names_differ :
    (name : List ℕ) (peers : List (ℕ × Peer))
    → any (λ e. bytes_eq e.1.info.display_name name) peers ≡ false
    → All (λ e. e.1.info.display_name ≢ name) peers
names_differ name [] h = tt
names_differ name ((k, p) ∷ peers) h = (differ, names_differ name peers (ground arith))
  where
    differ : p.info.display_name ≢ name
    differ e = ground (arith, ap (λ t. bytes_eq t name) e, bytes_eq_refl name)

name_taken :
    (name : List ℕ) (peers : List (ℕ × Peer))
    → any (λ e. bytes_eq e.1.info.display_name name) peers ≡ true
    → ¬ All (λ e. e.1.info.display_name ≢ name) peers
name_taken name [] h all = cc
name_taken name ((k, p) ∷ peers) h all = elim (Bool-cases (bytes_eq p.info.display_name name)) [
  | inl here ↦ all.0 (bytes_eq_sound p.info.display_name name here)
  | inr other ↦ name_taken name peers (ground (arith, other)) all.1
]

contains_present :
    (k : ℕ) (peers : List (ℕ × Peer)) → contains k peers ≡ true → ¬ All (λ e. e.0 ≢ k) peers
unfolding contains
contains_present k peers h all = ground (arith, find-absent k peers all)

contains_new :
    (k : ℕ) (peers : List (ℕ × Peer)) → contains k peers ≡ false → All (λ e. e.0 ≢ k) peers
unfolding contains
contains_new k peers h = find-none k peers (ground arith)

mode_cases :
    (m : AuthenticationMode)
    → (m ≡ AuthenticationMode.token) ⊎ (m ≡ AuthenticationMode.public_access)
mode_cases AuthenticationMode.token = inl refl
mode_cases AuthenticationMode.public_access = inr refl

pub token_refused-false :
    (c : SessionConfig) (hello : ClientHello) → token_refused c hello ≡ false → MayEnter c hello
unfolding token_refused
token_refused-false c hello h = elim (mode_cases c.authentication) [
  | inl asked ↦ inr (bytes_eq_sound hello.token c.token (ground (arith, asked)))
  | inr open_to_all ↦ inl open_to_all
]

pub token_refused-true :
    (c : SessionConfig) (hello : ClientHello) → token_refused c hello ≡ true → ¬ MayEnter c hello
unfolding token_refused
token_refused-true c hello h may = elim may [
  | inl open_to_all ↦ ground (arith, open_to_all)
  | inr same ↦
      let equal = ap (λ t. bytes_eq t c.token) same in
      elim (mode_cases c.authentication) [
        | inl asked ↦ ground (arith, asked, equal, bytes_eq_refl c.token)
        | inr open_to_all ↦ ground (arith, open_to_all)
      ]
]

refuted_invalid :
    (s : Session) (connection : ℕ) (hello : ClientHello) {code : ValidationCode} {detail : List ℕ}
    → validate_hello hello s.config.limits ≡ invalid code detail
    → Fault s connection hello protocol_error
refuted_invalid s connection hello e = Fault.malformed (λ ok. cc)

Validation-cases :
    (v : Validation)
    → (v ≡ valid) ⊎ ((code : ValidationCode) × (detail : List ℕ) × (v ≡ invalid code detail))
Validation-cases valid = inl refl
Validation-cases (invalid code detail) = inr (code, detail, refl)

module _ (s : Session) (connection : ℕ) (hello : ClientHello) (now : ℕ) where
  -- The tests that follow the validation.
  accept_valid :
      (connection == 0) ≡ false
      → contains connection s.peers ≡ false
      → validate_hello hello s.config.limits ≡ valid
      → Outcome s connection hello now
  unfolding accept
  accept_valid nonzero new ok = elim (Bool-cases (bytes_eq hello.profile_id s.config.profile_id)) [
    | inr other ↦ inr (
        refusal s connection hello now profile_mismatch (text "game profile does not match session")
          (Fault.other_profile λ e. ground (
            arith,
            other,
            ap (λ t. bytes_eq t s.config.profile_id) e,
            bytes_eq_refl s.config.profile_id,
          ))
          (rw (accept, nonzero, new, ok, other) refl))
    | inl same ↦ elim (Bool-cases (token_refused s.config hello)) [
      | inl wrong ↦ inr (
          refusal s connection hello now token_mismatch (text "session token does not match")
            (Fault.wrong_token (token_refused-true s.config hello wrong))
            (rw (accept, nonzero, new, ok, same, wrong) refl))
      | inr right ↦ elim (Bool-cases (leb s.config.max_players (length s.peers))) [
        | inl none_left ↦ inr (
            refusal s connection hello now session_full
              (text "session already has " ++ to_string s.config.max_players ++ text " players")
              (Fault.full (ground arith))
              (rw (accept, nonzero, new, ok, same, right, none_left) refl))
        | inr room ↦
            elim (Bool-cases
              (any (λ e. bytes_eq e.1.info.display_name hello.display_name) s.peers)) [
                | inl used ↦ inr (
                    refusal s connection hello now duplicate_name
                      (text "display name is already in use")
                      (Fault.taken (name_taken hello.display_name s.peers used))
                      (rw (accept, nonzero, new, ok, same, right, room, used) refl))
                | inr free ↦ inl (
                  record {
                    nonzero = ground arith;
                    unregistered = contains_new connection s.peers new;
                    well_formed = ok;
                    same_profile = bytes_eq_sound hello.profile_id s.config.profile_id same;
                    authenticated = token_refused-false s.config hello right;
                    has_room = ground arith;
                    new_name = names_differ hello.display_name s.peers free;
                  },
                  rw (accept, nonzero, new, ok, same, right, room, free) refl,
                )
              ]
      ]
    ]
  ]

  pub accept_outcome : Outcome s connection hello now
  unfolding accept
  accept_outcome = elim (Bool-cases (connection == 0)) [
    | inl none_given ↦ inr (
        refusal s connection hello now protocol_error (text "connection is already registered")
          (Fault.zero_connection (ground arith)) (rw (accept, none_given) refl))
    | inr nonzero ↦ elim (Bool-cases (contains connection s.peers)) [
      | inl old ↦ inr (
          refusal s connection hello now protocol_error (text "connection is already registered")
            (Fault.registered (contains_present connection s.peers old))
            (rw (accept, nonzero, old) refl))
      | inr new ↦ elim (Validation-cases (validate_hello hello s.config.limits)) [
        | inr (code, detail, bad) ↦ inr (
            refusal s connection hello now protocol_error detail
              (refuted_invalid s connection hello bad) (rw (accept, nonzero, new, bad) refl))
        | inl ok ↦ accept_valid nonzero new ok
      ]
    ]
  ]
