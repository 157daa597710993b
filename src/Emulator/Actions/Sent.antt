-- ===== src/Emulator/Actions/Sent.antt =====
-- What a run of actions writes to the connection.
use ip_commandmic.Prelude.{◌≡◌, refl, ◌∙◌, ap, sym, List, [], ◌∷◌, ◌++◌, append_assoc}
use ip_commandmic.Emulator.Actions.{
  Action, sends, audits, sleeps, restores_after, begins_task, cancels_task, plays, sets_gate,
  sends_boot, completes_display_test, closes, sent,
}

pub sent-append : (xs ys : List Action) → sent (xs ++ ys) ≡ sent xs ++ sent ys
sent-append [] ys = refl
sent-append (sends frames ∷ xs) ys =
    ap (λ l. frames ++ l) (sent-append xs ys) ∙ sym (append_assoc frames (sent xs) (sent ys))
sent-append (audits event ∷ xs) ys = sent-append xs ys
sent-append (sleeps time ∷ xs) ys = sent-append xs ys
sent-append (restores_after time ∷ xs) ys = sent-append xs ys
sent-append (begins_task name ∷ xs) ys = sent-append xs ys
sent-append (cancels_task name ∷ xs) ys = sent-append xs ys
sent-append (plays source ∷ xs) ys = sent-append xs ys
sent-append (sets_gate active ∷ xs) ys = sent-append xs ys
sent-append (sends_boot ∷ xs) ys = sent-append xs ys
sent-append (completes_display_test ∷ xs) ys = sent-append xs ys
sent-append (closes ∷ xs) ys = sent-append xs ys
