-- ===== src/Display/State/Valid.antt =====
-- The tracker takes every classified message.
use text.Mathlib.Text.{◌==◌ as str_eq}
use ip_commandmic.Prelude.{
  ◌≡◌, refl, ◌∙◌, sym, ◌==◌, ==_iff, if◌then◌else◌, Bytes, IsBytes, Bool, true, false, inl, inr,
  Option, none, some, Bool-cases, length, hex, from_hex-hex,
}
use ip_commandmic.Models.{
  Value, null, str, chars, Metadata, get, Message, MessageKind, display_sync, display_update,
  display_ack, heartbeat,
}
use ip_commandmic.Display.State.{
  DisplayStateModel, Consumed, ignored, event, invalid_payload, consume, dispatch, consume_sync,
  consume_update, consume_ack, consume_before, consume_after, take_buffer, payload_buffer,
}
use ip_commandmic.Protocol.Classify.Readable.{is_update, IsReadable, no_payload, reports}

-- No ValueError.
abbrev pub IsValid : Consumed → Type 0
IsValid invalid_payload = ⊥
IsValid ignored = Unit {0}
IsValid (event e) = Unit {0}

never : false ≡ true → ⊥
never h = cc

module _ (s : DisplayStateModel) where
  sync-IsValid : (v : Option Value) → IsValid (consume_sync s v).1
  unfolding consume_sync consume_before consume_after
  sync-IsValid none = tt
  sync-IsValid (some (str phase)) =
      by_name (str_eq phase "before_buffer") (str_eq phase "after_buffer")
    where
      by_name :
          (before after : Bool)
          → IsValid
              (if before
                then consume_before s
                else if after
                then consume_after s
                else (s, ignored)).1
      by_name true after = tt
      by_name false true = tt
      by_name false false = tt
  sync-IsValid (some null) = tt
  sync-IsValid (some _) = tt

  update-IsValid :
      (payload : Bytes)
      → IsBytes payload
      → length payload ≡ 68
      → IsValid (consume_update s (some (chars (hex payload)))).1
  unfolding consume_update
  update-IsValid payload h size =
      rw (from_hex-hex payload h) (unfold payload_buffer take_buffer in rw size tt)

  kind-IsValid :
      (k : MessageKind) (metadata : Metadata)
      → (is_update k ≡ true → IsValid (consume_update s (get metadata "payload_hex")).1)
      → IsValid (dispatch s k metadata).1
  kind-IsValid display_sync metadata h =
      unfold dispatch in sync-IsValid (get metadata "display_sync_phase")
  kind-IsValid display_update metadata h = unfold dispatch in h refl
  kind-IsValid display_ack metadata h = unfold dispatch consume_ack in tt
  kind-IsValid heartbeat metadata h = unfold dispatch in tt
  kind-IsValid _ metadata h = unfold dispatch in tt

  -- A message that was classified from bytes never makes the tracker raise.
  pub consume-IsValid : (m : Message) → IsReadable m → IsValid (consume s m).1
  unfolding consume
  consume-IsValid m (no_payload e k) =
      kind-IsValid m.kind m.metadata (λ h. absurd (never (sym k ∙ h)))
  consume-IsValid m (reports payload e bytes size) =
      kind-IsValid m.kind m.metadata (λ h. rw e (update-IsValid payload bytes (sized h)))
    where
      sized : is_update m.kind ≡ true → length payload ≡ 68
      sized h = elim (Bool-cases (length payload == 68)) [
        | inl k ↦ (==_iff (length payload) 68).0 k
        | inr k ↦ absurd (never (sym (size k) ∙ h))
      ]
