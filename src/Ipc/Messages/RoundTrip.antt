-- ===== src/Ipc/Messages/RoundTrip.antt =====
-- Every message that fits goes through a frame and comes back.
use ht2mp.Prelude.{
  ℕ, zero, suc, ◌+◌, ◌≤◌, ◌≡◌, refl, arith, List, [], ◌∷◌, ◌==◌, if◌then◌else◌, ◌∙◌,
}
use ht2mp.Protocol.Ranges.{IsBool}
use ht2mp.Ipc.Types.{FrameType, max_payload_size, frame_header_size}
use ht2mp.Ipc.Payload.{ok}
use ht2mp.Ipc.Frame.{decode_frame}
use ht2mp.Ipc.Frame.RoundTrip.{frame_of, encode_frame-frame_code, decode_frame-frame_of}
use ht2mp.Ipc.Messages.{
  encode_bridge_hello, read_bridge_hello, write_bridge_hello, read_bridge_ready, write_bridge_ready,
  read_bridge_status, write_bridge_status, read_spawn_remote, write_spawn_remote,
  read_despawn_remote, write_despawn_remote, read_enter_safe_mode, write_enter_safe_mode,
  read_environment, write_environment, encode_bridge_ready, encode_bridge_status,
  encode_set_observer_mode, decode_set_observer_mode, encode_enter_safe_mode, encode_spawn_remote,
  encode_despawn_remote, encode_environment,
}
use ht2mp.Ipc.Messages.Sample.{encode_local_sample, encode_remote_sample}
use ht2mp.Ipc.Messages.Fits.{Content, ContentFits}
use ht2mp.Ipc.Messages.Carry.{
  bridge_hello-Carries, bridge_ready-Carries, bridge_status-Carries, enter_safe_mode-Carries,
  spawn_remote-Carries, despawn_remote-Carries, environment-Carries,
}
use ht2mp.Ipc.Messages.Returns.{
  encode_content, decode_content, content_size, Returns, payload-Returns, sample_lem,
  decode_bridge_hello_lem, decode_bridge_ready_lem, decode_bridge_status_lem,
  decode_spawn_remote_lem, decode_despawn_remote_lem, decode_enter_safe_mode_lem,
  decode_environment_lem,
}

observed :
    (b : ℕ)
    → IsBool b
    → decode_set_observer_mode ((if b == 0 then 0 else 1) ∷ []) ≡ ok (record { enabled = b })
unfolding decode_set_observer_mode
observed zero h = refl
observed (suc zero) h = refl
observed (suc (suc b)) h = absurd (omega arith)

content-Returns :
    (type : FrameType) (m : Content type) (output_size : ℕ)
    → ContentFits type m
    → frame_header_size + content_size type ≤ output_size
    → Returns type m output_size
unfolding encode_content decode_content encode_bridge_hello encode_bridge_ready encode_bridge_status
    encode_spawn_remote encode_despawn_remote encode_enter_safe_mode encode_environment
    encode_local_sample encode_remote_sample encode_set_observer_mode decode_set_observer_mode
content-Returns FrameType.bridge_hello m output_size h room =
    payload-Returns FrameType.bridge_hello m output_size (write_bridge_hello m) read_bridge_hello 60
      (bridge_hello-Carries m h) refl (decode_bridge_hello_lem m h) refl (omega arith) room
content-Returns FrameType.bridge_ready m output_size h room =
    payload-Returns FrameType.bridge_ready m output_size (write_bridge_ready m) read_bridge_ready 12
      (bridge_ready-Carries m h) refl (decode_bridge_ready_lem m h) refl (omega arith) room
content-Returns FrameType.bridge_status m output_size h room =
    payload-Returns FrameType.bridge_status m output_size (write_bridge_status m) read_bridge_status
      168 (bridge_status-Carries m h) refl (decode_bridge_status_lem m h) refl (omega arith) room
content-Returns FrameType.spawn_remote m output_size h room =
    payload-Returns FrameType.spawn_remote m output_size (write_spawn_remote m) read_spawn_remote 52
      (spawn_remote-Carries m h) refl (decode_spawn_remote_lem m h) refl (omega arith) room
content-Returns FrameType.despawn_remote m output_size h room =
    payload-Returns FrameType.despawn_remote m output_size (write_despawn_remote m)
      read_despawn_remote 16 (despawn_remote-Carries m h) refl (decode_despawn_remote_lem m h) refl
      (omega arith) room
content-Returns FrameType.enter_safe_mode m output_size h room =
    payload-Returns FrameType.enter_safe_mode m output_size (write_enter_safe_mode m)
      read_enter_safe_mode 4 (enter_safe_mode-Carries m h) refl (decode_enter_safe_mode_lem m) refl
      (omega arith) room
content-Returns FrameType.environment m output_size h room =
    payload-Returns FrameType.environment m output_size (write_environment m) read_environment 61
      (environment-Carries m h) (rw h.state_valid refl) (decode_environment_lem m h) refl
      (omega arith) room
content-Returns FrameType.local_sample m output_size h room =
    let (payload, sized, encodes, decodes) =
      sample_lem FrameType.local_sample m output_size h room in
    record { payload = payload; sized = sized; encodes = encodes; decodes = decodes }
content-Returns FrameType.remote_sample m output_size h room =
    let (payload, sized, encodes, decodes) =
      sample_lem FrameType.remote_sample m output_size h room in
    record { payload = payload; sized = sized; encodes = encodes; decodes = decodes }
content-Returns FrameType.set_observer_mode m output_size h room = record {
  payload = (if m.enabled == 0 then 0 else 1) ∷ [];
  sized = refl;
  encodes =
      encode_frame-frame_code FrameType.set_observer_mode 0 _ output_size ∙ ground (arith, room);
  decodes = observed m.enabled h;
}

content_size-le : (type : FrameType) → content_size type ≤ max_payload_size
content_size-le FrameType.bridge_hello = omega arith
content_size-le FrameType.bridge_ready = omega arith
content_size-le FrameType.bridge_status = omega arith
content_size-le FrameType.local_sample = omega arith
content_size-le FrameType.spawn_remote = omega arith
content_size-le FrameType.remote_sample = omega arith
content_size-le FrameType.despawn_remote = omega arith
content_size-le FrameType.set_observer_mode = omega arith
content_size-le FrameType.enter_safe_mode = omega arith
content_size-le FrameType.environment = omega arith

-- For each kind of frame, a message whose fields fit their C++ types and pass the tests of its
-- decoder is encoded whenever the output has room for the header and the payload; the frame
-- decodes to its kind, the size of its payload and the sequence 0, and the payload decodes to the
-- message.
pub decode_content-encode_content :
    (type : FrameType) (m : Content type) (output_size : ℕ)
    → ContentFits type m
    → frame_header_size + content_size type ≤ output_size
    → (frame payload : List ℕ) × (encode_content type m output_size ≡ ok frame)
      × (decode_frame frame
          ≡ ok (record { type = type; payload_size = content_size type; sequence = 0 }, payload))
      × (decode_content type payload ≡ ok m)
decode_content-encode_content type m output_size h room =
    let r = content-Returns type m output_size h room in
    (
      frame_of type 0 r.payload,
      r.payload,
      r.encodes,
      rw (← r.sized) (
          decode_frame-frame_of type 0 r.payload (omega arith)
            (omega (arith, r.sized, content_size-le type))),
      r.decodes,
    )
