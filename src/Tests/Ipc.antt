-- ===== src/Tests/Ipc.antt =====
-- Frames between the sidecar and the bridge at concrete messages.
use ht2mp.Prelude.{◌⊎◌, ◌↔◌, ℕ, ◌≡◌, refl, arith, List, [], ◌∷◌, ◌^◌, replicate}
use ht2mp.Ipc.Authentication.{
  authenticated, BridgeExpectation, authenticate_bridge_hello, Authentic,
  authenticate_bridge_hello_lem,
}
use ht2mp.Ipc.Types.{FrameType, BridgeHello, SpawnRemote}
use ht2mp.Ipc.Payload.{ok}
use ht2mp.Ipc.Frame.{decode_frame}
use ht2mp.Ipc.Frame.Outcome.{Framed, Refused, encode_frame_lem}
use ht2mp.Ipc.Messages.{is_terminated}
use ht2mp.Ipc.Messages.Fits.{ContentFits}
use ht2mp.Ipc.Messages.Returns.{encode_content, decode_content}
use ht2mp.Ipc.Messages.RoundTrip.{decode_content-encode_content}

abbrev newcomer : SpawnRemote
newcomer = record {
  player_id = 7;
  incarnation_id = 2 ^ 40;
  vehicle_type = 62;
  paint_variant = 3;
  display_name = 65 ∷ 110 ∷ replicate 31 0;
}

newcomer_fits : ContentFits FrameType.spawn_remote newcomer
unfolding is_terminated
newcomer_fits = record {
  player_id = omega arith;
  incarnation_id = omega arith;
  vehicle_type = omega arith;
  paint_variant = omega arith;
  display_name = refl;
  terminated = refl;
}

decode_content-encode_content_example :
    (frame payload : List ℕ) × (encode_content FrameType.spawn_remote newcomer 68 ≡ ok frame)
    × (decode_frame frame
        ≡ ok (record { type = FrameType.spawn_remote; payload_size = 52; sequence = 0 }, payload))
    × (decode_content FrameType.spawn_remote payload ≡ ok newcomer)
decode_content-encode_content_example =
    decode_content-encode_content FrameType.spawn_remote newcomer 68 newcomer_fits (omega arith)

encode_frame_lem_example : Framed 2 5 (1 ∷ 2 ∷ []) 18 ⊎ Refused 2 5 (1 ∷ 2 ∷ []) 18
encode_frame_lem_example = encode_frame_lem 2 5 (1 ∷ 2 ∷ []) 18 (omega arith)

abbrev hello : BridgeHello
hello = record {
  abi_version = 2;
  run_id = 77;
  nonce = replicate 16 9;
  profile_id = 115 ∷ 56 ∷ replicate 30 0;
}

abbrev expected : BridgeExpectation
expected = record { run_id = 77; nonce = replicate 16 9; profile_id = 115 ∷ 56 ∷ [] }

authenticate_bridge_hello_lem_example :
    (authenticate_bridge_hello hello expected ≡ authenticated) ↔ Authentic hello expected
authenticate_bridge_hello_lem_example = authenticate_bridge_hello_lem hello expected

hello_authenticated : authenticate_bridge_hello hello expected ≡ authenticated
hello_authenticated = (authenticate_bridge_hello_lem hello expected).1 (record {
  same_abi = refl;
  same_run = refl;
  run_nonzero = omega arith;
  same_nonce = refl;
  some_profile = λ empty. cc;
  same_profile = ((omega arith, (omega arith, tt)), (replicate 29 0, refl));
})
