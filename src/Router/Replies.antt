-- ===== src/Router/Replies.antt =====
-- Which frames messageRouter.ts sends for a message, and what it settles.
use pvpentech_core.Common.{
  ℕ, ◌≤◌, ◌≡◌, ◌⊎◌, inl, inr, refl, String, true, List, [], ◌∷◌, Option, none, some, arith, length,
}
use mathlib.Core.List.{◌++◌}
use Prim.Native.String
use pvpentech_core.Value.{Value, str, to_text}
use pvpentech_core.Frame.{
  Message, call, call_result, call_error, Parsed, frame, failed, parse_ocpp_message,
  serialize_call_result, serialize_call_error,
}
use pvpentech_core.Router.{
  Handler, Handlers, Answer, returned, threw, Effect, delivered, recorded, resolved, rejected, Wire,
  classify_ocpp_error, persist, log_inbound, send_and_log, catch_error, reply, finish_call,
  run_handler, handle_call, route, handle, handler_of, validation_error,
}

-- The frames that reach the charger.
abbrev pub frames : List Effect → List String
frames [] = []
frames (delivered raw ∷ es) = raw ∷ frames es
frames (recorded _ ∷ es) = frames es
frames (resolved _ _ ∷ es) = frames es
frames (rejected _ _ ∷ es) = frames es

module _ (w : Wire) where
  frames-log_inbound :
      (m : Message) (raw : String) (es : List Effect)
      → frames (log_inbound w m raw ++ es) ≡ frames es
  unfolding log_inbound persist
  frames-log_inbound (call m a p) raw es = ground arith
  frames-log_inbound (call_result m p) raw es = ground arith
  frames-log_inbound (call_error m c d e) raw es = ground arith

  frames-catch_error :
      (n : ℕ) (m : Value) (action : Option Value) (error : Option String)
      → length (frames (catch_error w n m action error)) ≤ 1
  unfolding catch_error send_and_log persist
  frames-catch_error n m action error = ground arith

  frames-reply-le :
      (raw : String) (d : ℕ) (m : Value) (action : Option Value)
      → length (frames (reply w raw d m action)) ≤ 1
  unfolding reply send_and_log persist
  frames-reply-le raw d m action = ground (arith, frames-catch_error 1 m action w.send_error)

-- The one frame that answers a call: a refusal of the validator, the notice that no handler is
-- there, the handler's result, or the error that the handler's failure is classified as.
pub data IsReply {S : Type 0} (w : Wire) (handlers : Handlers S) (station : String)
    (m action payload : Value) (s : S) (raw : String) : Type 0 where
  invalid :
      {error : String}
      → validation_error action payload ≡ some error
      → raw ≡ serialize_call_error w.js m "FormationViolation" error
      → IsReply w handlers station m action payload s raw
  unsupported :
      validation_error action payload ≡ none
      → handler_of handlers action ≡ none
      → raw
        ≡ serialize_call_error w.js m "NotImplemented"
            (String.◌++◌ "Action " (String.◌++◌ (to_text w.js action) " not supported"))
      → IsReply w handlers station m action payload s raw
  result :
      {h : Handler S} {v : Value} {t : S}
      → validation_error action payload ≡ none
      → handler_of handlers action ≡ some h
      → h station payload s ≡ returned v t
      → raw ≡ serialize_call_result w.js m v
      → IsReply w handlers station m action payload s raw
  failure :
      {h : Handler S} {error : Option String} {t : S}
      → validation_error action payload ≡ none
      → handler_of handlers action ≡ some h
      → h station payload s ≡ threw error t
      → raw
        ≡ serialize_call_error w.js m (classify_ocpp_error error).0 (classify_ocpp_error error).1
      → IsReply w handlers station m action payload s raw

Parsed-cases : (p : Parsed) → ((m : Message) × (p ≡ frame m)) ⊎ ((e : String) × (p ≡ failed e))
Parsed-cases (frame m) = inl (m, refl)
Parsed-cases (failed e) = inr (e, refl)

module _ {S : Type 0} (w : Wire) (handlers : Handlers S) (station : String) where
  handle_of_frame :
      (raw : String) (message : Message) (s : S)
      → parse_ocpp_message w.js raw ≡ frame message
      → frames (handle w handlers station raw s).effects
        ≡ frames (route w handlers station message s).effects
  unfolding handle
  handle_of_frame raw message s h = rw h (frames-log_inbound w message raw _)

  module _ (ready : w.accepts 0 ≡ true) (m action payload : Value) (s : S) where
    abbrev pub Answered : List Effect → Type 0
    Answered es =
        (raw : String) × (frames es ≡ raw ∷ []) × IsReply w handlers station m action payload s raw

  -- What the pending requests are told.
  abbrev pub settlements : List Effect → List Effect
  settlements [] = []
  settlements (delivered raw ∷ es) = settlements es
  settlements (recorded entry ∷ es) = settlements es
  settlements (resolved m v ∷ es) = resolved m v ∷ settlements es
  settlements (rejected m e ∷ es) = rejected m e ∷ settlements es

  -- A text that is read as a result settles just the request of that message id with the payload;
  -- it is not answered, and the handlers' state stays.
  pub result-settles :
      (raw : String) (m payload : Value) (s : S)
      → parse_ocpp_message w.js raw ≡ frame (call_result m payload)
      → (settlements (handle w handlers station raw s).effects ≡ resolved m payload ∷ [])
        × (frames (handle w handlers station raw s).effects ≡ [])
        × ((handle w handlers station raw s).state ≡ s)
  unfolding handle log_inbound persist
  result-settles raw m payload s h = (ground arith, ground arith, ground arith)

  finish_call-frames_le :
      (m action : Value) (a : Answer S)
      → length (frames (finish_call w handlers station m action a).effects) ≤ 1
  unfolding finish_call
  finish_call-frames_le m action (returned v t) = frames-reply-le w _ 3 m (some action)
  finish_call-frames_le m action (threw error t) = frames-catch_error w 0 m (some action) error

  run_handler-frames_le :
      (m action payload : Value) (found : Option (Handler S)) (s : S)
      → length (frames (run_handler w handlers station m action payload found s).effects) ≤ 1
  unfolding run_handler
  run_handler-frames_le m action payload (some h) s =
      finish_call-frames_le m action (h station payload s)
  run_handler-frames_le m action payload none s = frames-reply-le w _ 4 m (some action)

  handle_call-frames_le :
      (m action payload : Value) (error : Option String) (s : S)
      → length (frames (handle_call w handlers station m action payload error s).effects) ≤ 1
  unfolding handle_call
  handle_call-frames_le m action payload (some error) s = frames-reply-le w _ 4 m (some action)
  handle_call-frames_le m action payload none s =
      run_handler-frames_le m action payload (handler_of handlers action) s

  route-frames_le :
      (message : Message) (s : S) → length (frames (route w handlers station message s).effects) ≤ 1
  unfolding route
  route-frames_le (call m action payload) s =
      handle_call-frames_le m action payload (validation_error action payload) s
  route-frames_le (call_result m payload) s = omega arith
  route-frames_le (call_error m c d e) s = omega arith

  -- Whatever arrives, whatever the handlers do and whether or not the socket takes a frame, one
  -- run delivers at most one frame.
  pub handle-frames_le :
      (raw : String) (s : S) → length (frames (handle w handlers station raw s).effects) ≤ 1
  unfolding handle
  handle-frames_le raw s = elim (Parsed-cases (parse_ocpp_message w.js raw)) [
    | inl (message, e) ↦ rw (handle_of_frame raw message s e) (route-frames_le message s)
    | inr (error, e) ↦ rw e (frames-catch_error w 0 (str "unknown") none (some error))
  ]
