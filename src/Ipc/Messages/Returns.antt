-- ===== src/Ipc/Messages/Returns.antt =====
-- The payload of a message, in its frame: that it is encoded, and that its decoder takes it.
use ht2mp.Prelude.{
  ℕ, ◌+◌, ◌-◌, ◌≤◌, ◌≡◌, refl, arith, false, some, List, [], ◌∷◌, length, append-nil, ltb, ◌∙◌,
}
use ht2mp.Protocol.Reader.{Reader}
use ht2mp.Ipc.Types.{
  FrameType, BridgeHello, EnterSafeMode, DespawnRemote, BridgeReady, BridgeStatus, SpawnRemote,
  Environment, PlayerSample, max_payload_size, frame_header_size,
}
use ht2mp.Ipc.Payload.{Coded, ok, PayloadWriter, Put, append, all_of}
use ht2mp.Ipc.Payload.Fields.{Carries}
use ht2mp.Ipc.Frame.Header.{header_bytes}
use ht2mp.Ipc.Frame.RoundTrip.{frame_of, encode_frame-frame_code}
use ht2mp.Ipc.Messages.{
  encode_payload, padded, finish_read, no_more, value_in_range, encode_bridge_hello,
  decode_bridge_hello, read_bridge_hello, read_bridge_ready, read_bridge_status, read_spawn_remote,
  read_despawn_remote, read_enter_safe_mode, read_environment, encode_bridge_ready,
  decode_bridge_ready, encode_bridge_status, decode_bridge_status, encode_set_observer_mode,
  decode_set_observer_mode, encode_enter_safe_mode, decode_enter_safe_mode, encode_spawn_remote,
  decode_spawn_remote, encode_despawn_remote, decode_despawn_remote, encode_environment,
  decode_environment,
}
use ht2mp.Ipc.Messages.Sample.{
  write_player_sample, ensure_full, encode_player_sample_as, encode_local_sample,
  encode_remote_sample, decode_player_sample,
}
use ht2mp.Ipc.Messages.Fits.{
  Content, PlayerSampleFits, BridgeHelloFits, BridgeReadyFits, BridgeStatusFits, SpawnRemoteFits,
  DespawnRemoteFits, EnvironmentMessageFits,
}
use ht2mp.Ipc.Messages.CarrySample.{player_sample-Carries}

-- The encoder and the decoder of each kind of frame.
unfoldable pub encode_content : (type : FrameType) → Content type → ℕ → Coded (List ℕ)
encode_content FrameType.bridge_hello = encode_bridge_hello
encode_content FrameType.bridge_ready = encode_bridge_ready
encode_content FrameType.bridge_status = encode_bridge_status
encode_content FrameType.local_sample = encode_local_sample
encode_content FrameType.spawn_remote = encode_spawn_remote
encode_content FrameType.remote_sample = encode_remote_sample
encode_content FrameType.despawn_remote = encode_despawn_remote
encode_content FrameType.set_observer_mode = encode_set_observer_mode
encode_content FrameType.enter_safe_mode = encode_enter_safe_mode
encode_content FrameType.environment = encode_environment

unfoldable pub decode_content : (type : FrameType) → List ℕ → Coded (Content type)
decode_content FrameType.bridge_hello = decode_bridge_hello
decode_content FrameType.bridge_ready = decode_bridge_ready
decode_content FrameType.bridge_status = decode_bridge_status
decode_content FrameType.local_sample = decode_player_sample
decode_content FrameType.spawn_remote = decode_spawn_remote
decode_content FrameType.remote_sample = decode_player_sample
decode_content FrameType.despawn_remote = decode_despawn_remote
decode_content FrameType.set_observer_mode = decode_set_observer_mode
decode_content FrameType.enter_safe_mode = decode_enter_safe_mode
decode_content FrameType.environment = decode_environment

abbrev pub content_size : FrameType → ℕ
content_size FrameType.bridge_hello = 60
content_size FrameType.bridge_ready = 12
content_size FrameType.bridge_status = 168
content_size FrameType.local_sample = 378
content_size FrameType.spawn_remote = 52
content_size FrameType.remote_sample = 378
content_size FrameType.despawn_remote = 16
content_size FrameType.set_observer_mode = 1
content_size FrameType.enter_safe_mode = 4
content_size FrameType.environment = 61

-- An array that is written in full has no padding.
encode_payload_lem :
    (type : FrameType) (size : ℕ) (put : Put) (bytes : List ℕ) (output_size : ℕ)
    → put (record { capacity = size; bytes = [] })
      ≡ some (record { capacity = size; bytes = bytes })
    → length bytes ≡ size
    → size ≤ max_payload_size
    → frame_header_size + size ≤ output_size
    → encode_payload type size put output_size ≡ ok (frame_of type 0 bytes)
unfolding encode_payload padded header_bytes
encode_payload_lem type size put bytes output_size put_all e small room =
    let none_left : size - length bytes ≡ 0 = omega arith in
    rw (encode_payload, put_all, none_left, append-nil)
      (encode_frame-frame_code type 0 bytes output_size ∙ ground arith)

-- What a payload's round trip comes to.
pub record Returns (type : FrameType) (m : Content type) (output_size : ℕ) : Type 0 where
  pub payload : List ℕ
  pub sized : length payload ≡ content_size type
  pub encodes : encode_content type m output_size ≡ ok (frame_of type 0 payload)
  pub decodes : decode_content type payload ≡ ok m

-- From a payload that carries the message.
module _ (type : FrameType) (m : Content type) (output_size : ℕ) (put : Put)
    (get : Reader (Content type)) (size : ℕ) (c : Carries put get size m) where
  pub payload-Returns :
      encode_content type m output_size ≡ encode_payload type size put output_size
      → ((payload : List ℕ) → get payload ≡ some (m, []) → decode_content type payload ≡ ok m)
      → size ≡ content_size type
      → size ≤ max_payload_size
      → frame_header_size + content_size type ≤ output_size
      → Returns type m output_size
  payload-Returns encoder decoder same small room =
      let w : PayloadWriter = record { capacity = size; bytes = [] } in
      record {
        payload = c.bytes;
        sized = c.sized ∙ same;
        encodes =
            encoder
            ∙ encode_payload_lem type size put c.bytes output_size
                (c.puts.on w (omega (arith, c.sized))) c.sized small (omega (arith, same, room));
        decodes = decoder c.bytes (rw append-nil at (c.gets.on []));
      }

pub decode_bridge_hello_lem :
    (m : BridgeHello)
    → BridgeHelloFits m
    → (payload : List ℕ) → read_bridge_hello payload ≡ some (m, [])
    → decode_bridge_hello payload ≡ ok m
unfolding decode_bridge_hello finish_read no_more
decode_bridge_hello_lem m h payload e = rw e (refl)

pub decode_bridge_ready_lem :
    (m : BridgeReady)
    → BridgeReadyFits m
    → (payload : List ℕ) → read_bridge_ready payload ≡ some (m, [])
    → decode_bridge_ready payload ≡ ok m
unfolding decode_bridge_ready finish_read no_more value_in_range
decode_bridge_ready_lem m h payload e = rw e (ground (arith, h.result, h.mode_low, h.mode_high))

pub decode_bridge_status_lem :
    (m : BridgeStatus)
    → BridgeStatusFits m
    → (payload : List ℕ) → read_bridge_status payload ≡ some (m, [])
    → decode_bridge_status payload ≡ ok m
unfolding decode_bridge_status finish_read no_more value_in_range
decode_bridge_status_lem m h payload e = rw e (ground (arith, h.code, h.mode_low, h.mode_high))

pub decode_spawn_remote_lem :
    (m : SpawnRemote)
    → SpawnRemoteFits m
    → (payload : List ℕ) → read_spawn_remote payload ≡ some (m, [])
    → decode_spawn_remote payload ≡ ok m
unfolding decode_spawn_remote finish_read no_more
decode_spawn_remote_lem m h payload e = rw e (rw h.terminated refl)

pub decode_despawn_remote_lem :
    (m : DespawnRemote)
    → DespawnRemoteFits m
    → (payload : List ℕ) → read_despawn_remote payload ≡ some (m, [])
    → decode_despawn_remote payload ≡ ok m
unfolding decode_despawn_remote finish_read no_more
decode_despawn_remote_lem m h payload e = rw e (refl)

pub decode_enter_safe_mode_lem :
    (m : EnterSafeMode) (payload : List ℕ)
    → read_enter_safe_mode payload ≡ some (m, [])
    → decode_enter_safe_mode payload ≡ ok m
unfolding decode_enter_safe_mode finish_read no_more
decode_enter_safe_mode_lem m payload e = rw e refl

pub decode_environment_lem :
    (m : Environment)
    → EnvironmentMessageFits m
    → (payload : List ℕ) → read_environment payload ≡ some (m, [])
    → decode_environment payload ≡ ok m
unfolding decode_environment finish_read no_more
decode_environment_lem m h payload e = rw e (rw h.state_valid refl)

pub sample_lem :
    (type : FrameType) (m : PlayerSample) (output_size : ℕ)
    → PlayerSampleFits m
    → frame_header_size + 378 ≤ output_size
    → (payload : List ℕ) × (length payload ≡ 378)
      × (encode_player_sample_as type m output_size ≡ ok (frame_of type 0 payload))
      × (decode_player_sample payload ≡ ok m)
unfolding encode_player_sample_as decode_player_sample finish_read no_more all_of ensure_full
sample_lem type m output_size h room =
    let c = player_sample-Carries m h in
    let w : PayloadWriter = record { capacity = 378; bytes = [] } in
    let read = rw append-nil at (c.gets.on []) in
    let full : all_of (ensure_full ∷ []) (append w c.bytes) ≡ some (append w c.bytes) =
      ground (arith, c.sized) in
    let put_all : all_of (write_player_sample m ∷ ensure_full ∷ []) w ≡ some (append w c.bytes) =
      rw (all_of, c.puts.on w (omega (arith, c.sized))) full in
    let long : ltb (length c.bytes) 378 ≡ false = ground (arith, c.sized) in
    let short : ltb 378 (length c.bytes) ≡ false = ground (arith, c.sized) in
    (
      c.bytes,
      c.sized,
      encode_payload_lem type 378 (all_of (write_player_sample m ∷ ensure_full ∷ [])) c.bytes
          output_size put_all c.sized (omega arith) room,
      rw (long, short, read) refl,
    )
