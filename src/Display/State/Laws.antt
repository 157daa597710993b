-- ===== src/Display/State/Laws.antt =====
-- The display tracker: its invariant, its warnings, and the three steps of a transaction.
use text.Mathlib.Text.{◌==◌ as str_eq}
use ip_commandmic.Prelude.{
  if◌then◌else◌, ◌<◌, ◌≡◌, refl, arith, ◌∙◌, ◌↔◌, Bytes, Option, none, some, Bool, true, false,
  length, from_hex,
}
use ip_commandmic.Models.{
  Value, null, str, chars, get, Metadata, Message, MessageKind, heartbeat, display_sync,
  display_update, display_ack,
}
use ip_commandmic.Display.Buffer.{DisplayBuffer, Displayed, ok, err}
use ip_commandmic.Display.State.{
  DisplayPhase, idle, before_buffer, buffer_received, after_buffer, acknowledged, DisplayEventKind,
  sync_before, buffer_updated, sync_after, DisplayEvent, DisplayStateModel, Consumed, ignored,
  event, invalid_payload, consume_sync, consume_before, consume_after, consume_update, take_buffer,
  payload_buffer, consume_ack, dispatch, consume,
}

-- The order of a transaction, written from the protocol: before, buffer, after, acknowledgement.
abbrev pub in_order : DisplayPhase → DisplayEventKind → Bool
in_order idle sync_before = true
in_order after_buffer sync_before = true
in_order acknowledged sync_before = true
in_order before_buffer buffer_updated = true
in_order buffer_received sync_after = true
in_order after_buffer DisplayEventKind.acknowledged = true
in_order _ _ = false

-- What an event says of the states before and after it.
pub record Describes (s s' : DisplayStateModel) (e : DisplayEvent) : Type 0 where
  pub phase : s'.phase ≡ e.phase
  pub revision : s'.revision ≡ e.revision
  pub warning : s'.last_warning ≡ e.warning
  pub ordered : (e.warning ≡ none) ↔ (in_order s.phase e.kind ≡ true)

abbrev pub Reports : DisplayStateModel → DisplayStateModel × Consumed → Type 0
Reports s (s', ignored) = s' ≡ s
Reports s (s', invalid_payload) = s' ≡ s
Reports s (s', event e) = Describes s s' e

payload_buffer-size :
    (o : Option Bytes) (b : DisplayBuffer) → payload_buffer o ≡ ok b → length b.raw ≡ 68
unfolding payload_buffer
payload_buffer-size none b e = cc
payload_buffer-size (some raw) b e = ground arith

module _ (s : DisplayStateModel) where
  before-Reports : Reports s (consume_before s)
  unfolding consume_before
  before-Reports = record { phase = refl; revision = refl; warning = refl; ordered = ground arith }

  after-Reports : Reports s (consume_after s)
  unfolding consume_after
  after-Reports = record { phase = refl; revision = refl; warning = refl; ordered = ground arith }

  update-Reports : (d : Displayed DisplayBuffer) → Reports s (take_buffer s d)
  unfolding take_buffer
  update-Reports (err e) = refl
  update-Reports (ok d) = record {
    phase = refl;
    revision = refl;
    warning = refl;
    ordered = ground arith;
  }

  ack-Reports : Reports s (consume_ack s)
  unfolding consume_ack
  ack-Reports = record { phase = refl; revision = refl; warning = refl; ordered = ground arith }

  sync-Reports : (v : Option Value) → Reports s (consume_sync s v)
  unfolding consume_sync
  sync-Reports none = refl
  sync-Reports (some (str phase)) =
      by_name (str_eq phase "before_buffer") (str_eq phase "after_buffer")
    where
      by_name :
          (before after : Bool)
          → Reports s
              (if before then consume_before s else if after then consume_after s else (s, ignored))
      by_name true after = before-Reports
      by_name false true = after-Reports
      by_name false false = refl
  sync-Reports (some null) = refl
  sync-Reports (some _) = refl

  buffer-Reports : (v : Option Value) → Reports s (consume_update s v)
  unfolding consume_update
  buffer-Reports none = refl
  buffer-Reports (some (chars payload)) = update-Reports (payload_buffer (from_hex payload))
  buffer-Reports (some null) = refl
  buffer-Reports (some _) = refl

-- Every message either leaves the tracker as it was, or is reported by an event with the phase,
-- the revision and the warning of the new state, and that warning is absent exactly when the
-- event is the next one in the order of a transaction.
pub consume-Reports : (s : DisplayStateModel) (m : Message) → Reports s (consume s m)
consume-Reports s m = unfold consume in by_kind m.kind m.metadata
  where
    by_kind : (k : MessageKind) (metadata : Metadata) → Reports s (dispatch s k metadata)
    by_kind display_sync metadata =
        unfold dispatch in sync-Reports s (get metadata "display_sync_phase")
    by_kind display_update metadata =
        unfold dispatch in buffer-Reports s (get metadata "payload_hex")
    by_kind display_ack metadata = unfold dispatch in ack-Reports s
    by_kind heartbeat metadata = unfold dispatch in refl
    by_kind _ metadata = unfold dispatch in refl

-- A tracker has a buffer of 68 bytes as soon as one update was counted, and none before.
pub data IsTracking (s : DisplayStateModel) : Type 0 where
  no_buffer : s.current ≡ none → s.revision ≡ 0 → IsTracking s
  with_buffer :
      (d : DisplayBuffer) → s.current ≡ some d → length d.raw ≡ 68 → 0 < s.revision → IsTracking s

IsTracking-same :
    (s s' : DisplayStateModel)
    → s'.current ≡ s.current
    → s'.revision ≡ s.revision
    → IsTracking s
    → IsTracking s'
IsTracking-same s s' c r (no_buffer e z) = no_buffer (c ∙ e) (r ∙ z)
IsTracking-same s s' c r (with_buffer d e size pos) = with_buffer d (c ∙ e) size (omega arith)

module _ (s : DisplayStateModel) (h : IsTracking s) where
  before-IsTracking : IsTracking (consume_before s).0
  unfolding consume_before
  before-IsTracking = IsTracking-same s _ refl refl h

  after-IsTracking : IsTracking (consume_after s).0
  unfolding consume_after
  after-IsTracking = IsTracking-same s _ refl refl h

  ack-IsTracking : IsTracking (consume_ack s).0
  unfolding consume_ack
  ack-IsTracking = IsTracking-same s _ refl refl h

  take-IsTracking :
      (d : Displayed DisplayBuffer)
      → ((b : DisplayBuffer) → d ≡ ok b → length b.raw ≡ 68)
      → IsTracking (take_buffer s d).0
  unfolding take_buffer
  take-IsTracking (err e) size = h
  take-IsTracking (ok d) size = with_buffer d refl (size d refl) (omega arith)

  sync-IsTracking : (v : Option Value) → IsTracking (consume_sync s v).0
  unfolding consume_sync
  sync-IsTracking none = h
  sync-IsTracking (some (str phase)) =
      by_name (str_eq phase "before_buffer") (str_eq phase "after_buffer")
    where
      by_name :
          (before after : Bool)
          → IsTracking
              ((if before
                then consume_before s
                else if after
                then consume_after s
                else (s, ignored))).0
      by_name true after = before-IsTracking
      by_name false true = after-IsTracking
      by_name false false = h
  sync-IsTracking (some null) = h
  sync-IsTracking (some _) = h

  update-IsTracking : (v : Option Value) → IsTracking (consume_update s v).0
  unfolding consume_update
  update-IsTracking none = h
  update-IsTracking (some (chars payload)) =
      take-IsTracking (payload_buffer (from_hex payload)) (payload_buffer-size (from_hex payload))
  update-IsTracking (some null) = h
  update-IsTracking (some _) = h

-- Every message, also one whose payload is rejected, keeps a tracker that either has no buffer at
-- revision 0 or has a buffer of 68 bytes at a revision above 0.
pub consume-IsTracking :
    (s : DisplayStateModel) (m : Message) → IsTracking s → IsTracking (consume s m).0
consume-IsTracking s m h = unfold consume in by_kind m.kind m.metadata
  where
    by_kind : (k : MessageKind) (metadata : Metadata) → IsTracking (dispatch s k metadata).0
    by_kind display_sync metadata =
        unfold dispatch in sync-IsTracking s h (get metadata "display_sync_phase")
    by_kind display_update metadata =
        unfold dispatch in update-IsTracking s h (get metadata "payload_hex")
    by_kind display_ack metadata = unfold dispatch in ack-IsTracking s h
    by_kind heartbeat metadata = unfold dispatch in h
    by_kind _ metadata = unfold dispatch in h
