-- ===== src/Display/State/Steps.antt =====
-- The three messages of a display transaction, as the tracker takes them.
use ip_commandmic.Prelude.{
  ◌+◌, ◌≡◌, refl, arith, ◌∙◌, ap, IsBytes, Option, none, some, length, hex, from_hex, from_hex-hex,
}
use ip_commandmic.Models.{str, chars, get, Message, display_sync, display_update}
use ip_commandmic.Display.Buffer.{DisplayBuffer, ok}
use ip_commandmic.Display.State.{
  before_buffer, buffer_received, after_buffer, DisplayWarning, DisplayStateModel, consume_sync,
  consume_before, consume_after, consume_update, take_buffer, payload_buffer, dispatch, consume,
}

quiet_after :
    (s : DisplayStateModel)
    → s.phase ≡ buffer_received
    → (consume_after s).0 ≡ record s { phase = after_buffer; last_warning = none }
unfolding consume_after
quiet_after s phase = ground (arith, phase)

quiet_update :
    (s : DisplayStateModel) (d : DisplayBuffer)
    → s.phase ≡ before_buffer
    → (take_buffer s (ok d)).0 ≡ record s {
      current = some d;
      phase = buffer_received;
      revision = s.revision + 1;
      last_warning = none;
    }
unfolding take_buffer
quiet_update s d phase = ground (arith, phase)

module _ (s : DisplayStateModel) (m : Message) where
  sync-eq :
      m.kind ≡ display_sync → consume s m ≡ consume_sync s (get m.metadata "display_sync_phase")
  sync-eq e = unfold consume in rw e (unfold dispatch in refl)

  update-eq :
      m.kind ≡ display_update → consume s m ≡ consume_update s (get m.metadata "payload_hex")
  update-eq e = unfold consume in rw e (unfold dispatch in refl)

  pub consume-before :
      m.kind ≡ display_sync
      → get m.metadata "display_sync_phase" ≡ some (str "before_buffer")
      → (w : Option DisplayWarning) × ((consume s m).0
          ≡ record s { phase = before_buffer; last_warning = w })
  consume-before k p = (
    (consume_before s).0.last_warning,
    ap (λ r. r.0) (sync-eq k ∙ ap (consume_sync s) p) ∙ unfold consume_sync in refl,
  )

  pub consume-after :
      m.kind ≡ display_sync
      → get m.metadata "display_sync_phase" ≡ some (str "after_buffer")
      → s.phase ≡ buffer_received
      → (consume s m).0 ≡ record s { phase = after_buffer; last_warning = none }
  consume-after k p phase =
      ap (λ r. r.0) (sync-eq k ∙ ap (consume_sync s) p) ∙ unfold consume_sync in quiet_after s phase

  pub consume-update :
      (d : DisplayBuffer)
      → m.kind ≡ display_update
      → get m.metadata "payload_hex" ≡ some (chars (hex d.raw))
      → length d.raw ≡ 68
      → IsBytes d.raw
      → s.phase ≡ before_buffer
      → (consume s m).0 ≡ record s {
        current = some d;
        phase = buffer_received;
        revision = s.revision + 1;
        last_warning = none;
      }
  consume-update d k p size bytes phase =
      ap (λ r. r.0) (update-eq k ∙ ap (consume_update s) p)
      ∙ opened
      ∙ ap (λ b. (take_buffer s b).0) (ap payload_buffer (from_hex-hex d.raw bytes) ∙ accepted)
      ∙ quiet_update s d phase
    where
      opened :
          (consume_update s (some (chars (hex d.raw)))).0
          ≡ (take_buffer s (payload_buffer (from_hex (hex d.raw)))).0
      opened = unfold consume_update in refl

      accepted : payload_buffer (some d.raw) ≡ ok d
      accepted = unfold payload_buffer in rw size refl
