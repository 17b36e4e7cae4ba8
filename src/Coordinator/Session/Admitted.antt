-- ===== src/Coordinator/Session/Admitted.antt =====
-- Admission keeps what a session keeps.
use ht2mp.Prelude.{
  ℕ, ◌+◌, ◌%◌, ◌^◌, ◌≤◌, ◌<◌, ◌≡◌, refl, ◌≢◌, List, [], ◌∷◌, length, All, arith, inl, inr,
}
use ht2mp.Protocol.Types.{ClientHello}
use ht2mp.Coordinator.Session.Admission.{accept_outcome}
use ht2mp.Coordinator.Session.{SessionConfig, Peer, Session, admit, accept}
use ht2mp.Coordinator.Session.Invariant.{EntryOk, WellFormed}

ids_differ :
    (c : SessionConfig) (next : ℕ) (peers : List (ℕ × Peer))
    → All (EntryOk c next) peers
    → All (λ e. e.1.info.player_id ≢ next) peers
ids_differ c next [] h = tt
ids_differ c next (e ∷ peers) h = (omega arith, ids_differ c next peers h.1)

EntryOk-mono :
    (c : SessionConfig) (next later : ℕ) (e : ℕ × Peer)
    → next ≤ later
    → EntryOk c next e
    → EntryOk c later e
EntryOk-mono c next later e le h = record {
  keyed = h.keyed;
  connected = h.connected;
  id_nonzero = h.id_nonzero;
  id_below = omega arith;
  limited = h.limited;
  own = h.own;
}

entries_mono :
    (c : SessionConfig) (next later : ℕ) (peers : List (ℕ × Peer))
    → next ≤ later
    → All (EntryOk c next) peers
    → All (EntryOk c later) peers
entries_mono c next later [] le h = tt
entries_mono c next later (e ∷ peers) le h =
    (EntryOk-mono c next later e le h.0, entries_mono c next later peers le h.1)

-- The numbers of the players do not wrap before 2 ^ 64 admissions.
admit-WellFormed :
    (s : Session) (connection : ℕ) (hello : ClientHello) (now : ℕ)
    → WellFormed s
    → s.next_player_id + 1 < 2 ^ 64
    → connection ≢ 0
    → All (λ e. e.0 ≢ connection) s.peers
    → length s.peers < s.config.max_players
    → All (λ e. e.1.info.display_name ≢ hello.display_name) s.peers
    → WellFormed (admit s connection hello now).1
unfolding admit
admit-WellFormed s connection hello now w more nonzero absent room names =
    let next : (s.next_player_id + 1) % 2 ^ 64 ≡ s.next_player_id + 1 = omega arith in
    record {
      config_ok = w.config_ok;
      next_nonzero = omega (arith, next);
      keys_unique = (absent, w.keys_unique);
      names_unique = (names, w.names_unique);
      ids_unique = (ids_differ s.config s.next_player_id s.peers w.entries, w.ids_unique);
      entries = (
        record {
          keyed = refl;
          connected = nonzero;
          id_nonzero = w.next_nonzero;
          id_below = omega (arith, next);
          limited = omega arith;
          own = tt;
        },
        entries_mono s.config s.next_player_id _ s.peers (omega (arith, next)) w.entries,
      );
      room = ground arith;
    }

-- Whatever it answers, accept keeps the session well formed.
pub accept-WellFormed :
    (s : Session) (connection : ℕ) (hello : ClientHello) (now : ℕ)
    → WellFormed s
    → s.next_player_id + 1 < 2 ^ 64
    → WellFormed (accept s connection hello now).1
accept-WellFormed s connection hello now w more = elim (accept_outcome s connection hello now) [
  | inl (a, e) ↦ rw e (
      admit-WellFormed s connection hello now w more a.nonzero a.unregistered a.has_room a.new_name)
  | inr r ↦ rw r.unchanged w
]
