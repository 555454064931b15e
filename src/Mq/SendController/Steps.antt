-- ===== src/Mq/SendController/Steps.antt =====
-- Whatever the controller is asked to do, and whatever comes back or times out.
use mathlib.Core.List.{append_assoc}
use ndidplatform_api.Base.{
  ℕ, suc, ◌≤◌, String, ◌≡◌, refl, sym, ap, ◌∙◌, subst, inl, inr, true, false, Option, none, some,
  List, [], ◌∷◌, ◌++◌, map, ◌==◌, ==_iff, string_eq, nat_eq, get, includes, All, All-append,
  Bool-cases, is_some,
}
use ndidplatform_api.Mq.Logic.{
  MqLogic, SeqEntry, Timer, Dest, Payload, buffer, other, Config, Result, ok, err,
  performs_clean_up, performs_send, performs_total_timeout, retries_send,
}
use ndidplatform_api.Mq.Logic
use ndidplatform_api.Mq.Logic.CleanUp.{clean_up_events, clean_up_lem}
use ndidplatform_api.Mq.Logic.Invariant.{new-Inv, clear_timeout-Inv}
use ndidplatform_api.Mq.SendSocket.{SendSocket}
use ndidplatform_api.Mq.SendSocket
use ndidplatform_api.Mq.SendSocket.Invariant.{Ledger}
use ndidplatform_api.Mq.SendSocket.Messages.{clean_up-Released}
use ndidplatform_api.Mq.Protocol.{
  generate_send_msg, extract_msg, Extracted, message, version_mismatch, malformed,
}
use ndidplatform_api.Mq.SendController.{
  Env, MqSend, Output, on_socket, handle, handle_all, emitted, clean_up_error, mq_send_timeout,
  send_on_socket, stop_send, timer, send, on_message, new, with_callback, sent, on_extracted,
  acknowledge, run_callback, ack_received, calls_back,
}
use ndidplatform_api.Mq.SendController.Books.{NoError, Agree, clean-Agree, handle_clean}
use ndidplatform_api.Mq.SendController.Sending.{perform_send-Agree}

-- The logic has gone to `r.0` and its events are handled without a failed clean-up.
record Goes (e : Env) (r : MqLogic × List Logic.Event) (s : SendSocket) : Type 0 where
  pub agree : Agree e r.0 (handle_all e r.1 s).0
  pub no_error : All NoError (handle_all e r.1 s).1

socket_events-NoError : (events : List SendSocket.Event) → All NoError (map on_socket events)
socket_events-NoError [] = tt
socket_events-NoError (event ∷ events) = (tt, socket_events-NoError events)

clean_events-NoError :
    (e : Env) (m : String) (r : List (ℕ × SeqEntry)) (s : SendSocket)
    → Ledger e.max_messages_per_socket s
    → All NoError (handle_all e (clean_up_events m r) s).1
unfolding handle_all
clean_events-NoError e m [] s g = tt
clean_events-NoError e m ((k, v) ∷ r) s g = elim (Bool-cases (v.msg_id == m)) [
  | inl t ↦ rw t (
      All-append NoError (handle e (performs_clean_up m v.seq_id) s).1 _ (unfold handle in one) (
        clean_events-NoError e m r (handle e (performs_clean_up m v.seq_id) s).0
          (handle_clean e m v.seq_id s g).0.ledger))
  | inr f ↦ rw f (clean_events-NoError e m r s g)
]
  where
    quiet : (o : Option SendSocket.Fault) → o ≡ none → All NoError (clean_up_error o)
    quiet none h = unfold clean_up_error in tt
    quiet (some f) h = absurd (cc)

    one :
        All NoError
          (map on_socket (SendSocket.clean_up m s).1 ++ clean_up_error (SendSocket.clean_up m s).2)
    one =
        All-append NoError (map on_socket (SendSocket.clean_up m s).1) _
          (socket_events-NoError (SendSocket.clean_up m s).1)
          (quiet (SendSocket.clean_up m s).2
            (clean_up-Released e.max_messages_per_socket s g m).no_fault)

clean-Goes :
    (e : Env) (m : String) (l : MqLogic) (s : SendSocket)
    → Agree e l s
    → Goes e (Logic.clean_up m l) s
clean-Goes e m l s a = record {
  agree = (clean-Agree e m l s a).0;
  no_error =
      rw (clean_up_lem m l a.logic.distinct a.logic.ticketed a.logic.known)
        (clean_events-NoError e m l.seq_map s a.ledger);
}

handle_all_last :
    (e : Env) (m id : String) (xs : List Logic.Event) (t : SendSocket)
    → handle_all e (xs ++ performs_total_timeout id m ∷ []) t
      ≡ ((handle_all e xs t).0, (handle_all e xs t).1 ++ mq_send_timeout m ∷ [])
unfolding handle_all handle
handle_all_last e m id [] t = refl
handle_all_last e m id (x ∷ xs) t =
    let out = (handle e x t).1 in
    let rest = handle_all e xs (handle e x t).0 in
    ap (λ r. (r.0, out ++ r.1)) (handle_all_last e m id xs (handle e x t).0)
    ∙ ap (λ r. (rest.0, r)) (sym (append_assoc out rest.1 (mq_send_timeout m ∷ [])))

module _ (e : Env) (apart : (p q : ℕ) → e.socket_id p ≡ e.socket_id q → p ≡ q)
    (room : 1 ≤ e.max_messages_per_socket) where
  sent-Goes :
      (d : Dest) (p : List ℕ) (m : String) (n : ℕ) (l : MqLogic) (s : SendSocket)
      → Agree e l s
      → Goes e (Logic.perform_send d p m n l) s
  sent-Goes d p m n l s a = record {
    agree = perform_send-Agree e apart room l s a d p m n;
    no_error =
        unfold Logic.perform_send handle_all handle send_on_socket in
        coded (generate_send_msg e.codec e.sender_id p m (suc l.max_seq_id));
  }
    where
      coded :
          (o : Option (List ℕ))
          → All NoError ((send_on_socket e d o m (suc l.max_seq_id) s).1 ++ [])
      coded none = unfold send_on_socket in (tt, tt)
      coded (some bytes) =
          unfold send_on_socket in
          All-append NoError (map on_socket _) [] (socket_events-NoError _) tt

  retry-Goes : (t : Timer) (l : MqLogic) (s : SendSocket) → Agree e l s → Goes e (Logic.retry t l) s
  unfolding Logic.retry
  retry-Goes t l s a = elim (Bool-cases (is_some (get t.seq_id l.seq_map))) [
    | inr f ↦ rw f (record { agree = unfold handle_all in a; no_error = unfold handle_all in tt })
    | inl there ↦ elim (Bool-cases (Logic.reached_max l t.retry_count)) [
      | inl last ↦
          let g = clean-Goes e t.msg_id l s a in
          let same = handle_all_last e t.msg_id l.id (Logic.clean_up t.msg_id l).1 s in
          rw (there, last)
            (record {
              agree = subst (λ r. Agree e (Logic.clean_up t.msg_id l).0 r.0) (sym same) g.agree;
              no_error =
                  subst (λ r. All NoError r.1) (sym same)
                    (All-append NoError _ _ g.no_error (tt, tt));
            })
      | inr more ↦
          let g = sent-Goes t.dest t.payload t.msg_id t.retry_count l s a in
          rw (there, more)
            (record {
              agree = unfold handle_all handle in g.agree;
              no_error = unfold handle_all handle in (tt, g.no_error);
            })
    ]
  ]

  timers-Agree :
      (i : ℕ) (l : MqLogic) (s : SendSocket)
      → Agree e l s
      → Agree e (record l { timers = Logic.clear_timeout i l.timers }) s
  timers-Agree i l s a = record {
    logic = clear_timeout-Inv i l a.logic;
    ledger = a.ledger;
    entered = a.entered;
    drawn = a.drawn;
  }

  fire-Goes : (i : ℕ) (l : MqLogic) (s : SendSocket) → Agree e l s → Goes e (Logic.fire i l) s
  unfolding Logic.fire
  fire-Goes i l s a = found (Logic.find_timer i l.timers)
    where
      found : (o : Option Timer) → Goes e (Logic.fire_found o i l) s
      found none =
          unfold Logic.fire_found in
          record { agree = unfold handle_all in a; no_error = unfold handle_all in tt }
      found (some t) = unfold Logic.fire_found in retry-Goes t _ s (timers-Agree i l s a)

-- What happens to a controller, short of `closeAll`.
pub data Op : Type 0 where
  sends : Dest → Payload → String → Option ℕ → Op
  comes_back : List ℕ → Op
  stops : String → Op
  times_out : ℕ → Op

unfoldable pub step : Env → Op → MqSend → MqSend × List Output
step e (sends d p m callback) s = send e d p m callback s
step e (comes_back bytes) s = on_message e bytes s
step e (stops m) s = stop_send e m s
step e (times_out i) s = timer e i s

unfoldable pub run : Env → List Op → MqSend → MqSend × List Output
run e [] s = (s, [])
run e (o ∷ os) s = let (s', out) = step e o s in let (s'', more) = run e os s' in (s'', out ++ more)

-- The books agree, and no clean-up failed on the way.
pub record IsSound (e : Env) (r : MqSend × List Output) : Type 0 where
  pub agree : Agree e r.0.logic r.0.socket
  pub no_error : All NoError r.1

emitted-IsSound :
    (e : Env) (r : MqLogic × List Logic.Event) (s : MqSend)
    → Goes e r s.socket
    → IsSound e (emitted e r s)
unfolding emitted
emitted-IsSound e r s g = record { agree = g.agree; no_error = g.no_error }

module _ (e : Env) (apart : (p q : ℕ) → e.socket_id p ≡ e.socket_id q → p ≡ q)
    (room : 1 ≤ e.max_messages_per_socket) where
  stop_send-IsSound :
      (m : String) (s : MqSend) → Agree e s.logic s.socket → IsSound e (stop_send e m s)
  unfolding stop_send
  stop_send-IsSound m s a = emitted-IsSound e _ s (clean-Goes e m s.logic s.socket a)

  send-IsSound :
      (d : Dest) (p : Payload) (m : String) (callback : Option ℕ) (s : MqSend)
      → Agree e s.logic s.socket
      → IsSound e (send e d p m callback s)
  unfolding send Logic.send
  send-IsSound d p m callback s a = elim (Bool-cases (m == "")) [
    | inl t ↦ rw t (record { agree = a; no_error = (tt, tt) })
    | inr f ↦ rw f (by_payload p callback f)
  ]
    where
      by_payload :
          (p : Payload) (o : Option ℕ)
          → (m == "") ≡ false
          → IsSound e (sent e (Logic.send d p m s.logic) (with_callback m o s))
      by_payload other none f =
          unfold sent with_callback in record { agree = a; no_error = (tt, tt) }
      by_payload other (some c) f =
          unfold sent with_callback in record { agree = a; no_error = (tt, tt) }
      by_payload (buffer bytes) none f = rw f (
          unfold sent with_callback in
          emitted-IsSound e _ s (sent-Goes e apart room d bytes m 0 s.logic s.socket a))
      by_payload (buffer bytes) (some c) f = rw f (
          unfold sent with_callback in
          emitted-IsSound e _ _ (sent-Goes e apart room d bytes m 0 s.logic s.socket a))

  called :
      (m : String) (r : MqSend × List Output) (o : Option ℕ)
      → IsSound e r
      → IsSound e ((run_callback m o r.0).0, r.1 ++ (run_callback m o r.0).1 ++ ack_received m ∷ [])
  unfolding run_callback
  called m r none g = record {
    agree = g.agree;
    no_error = All-append NoError (r.1 ++ []) _ (All-append NoError r.1 [] g.no_error tt) (tt, tt);
  }
  called m r (some c) g = record {
    agree = g.agree;
    no_error =
        All-append NoError (r.1 ++ calls_back c ∷ []) _
          (All-append NoError r.1 _ g.no_error (tt, tt)) (tt, tt);
  }

  on_message-IsSound :
      (bytes : List ℕ) (s : MqSend) → Agree e s.logic s.socket → IsSound e (on_message e bytes s)
  unfolding on_message
  on_message-IsSound bytes s a = by_extracted (extract_msg e.codec bytes)
    where
      acknowledged : (m : String) → IsSound e (acknowledge e m s)
      acknowledged m =
          unfold acknowledge in
          called m (stop_send e m s) (get m (stop_send e m s).0.callbacks_after_ack)
            (stop_send-IsSound m s a)

      by_extracted : (x : Extracted) → IsSound e (on_extracted e x s)
      by_extracted malformed = unfold on_extracted in record { agree = a; no_error = (tt, tt) }
      by_extracted (version_mismatch x y) =
          unfold on_extracted in record { agree = a; no_error = (tt, tt) }
      by_extracted (message msg) = unfold on_extracted in acknowledged msg.msg_id

  pub step-IsSound : (o : Op) (s : MqSend) → Agree e s.logic s.socket → IsSound e (step e o s)
  unfolding step
  step-IsSound (sends d p m callback) s a = send-IsSound d p m callback s a
  step-IsSound (comes_back bytes) s a = on_message-IsSound bytes s a
  step-IsSound (stops m) s a = stop_send-IsSound m s a
  step-IsSound (times_out i) s a =
      unfold timer in emitted-IsSound e _ s (fire-Goes e apart room i s.logic s.socket a)

  run_from-IsSound : (os : List Op) (s : MqSend) → Agree e s.logic s.socket → IsSound e (run e os s)
  unfolding run
  run_from-IsSound [] s a = record { agree = a; no_error = tt }
  run_from-IsSound (o ∷ os) s a =
      let first = step-IsSound o s a in
      let rest = run_from-IsSound os (step e o s).0 first.agree in
      record {
        agree = rest.agree;
        no_error = All-append NoError (step e o s).1 _ first.no_error rest.no_error;
      }

  new-Agree : (c : Config) → Agree e (new c).logic (new c).socket
  unfolding new SendSocket.new get
  new-Agree c = record {
    logic = new-Inv _;
    ledger = record {
      books = record {
        held = λ q i h. absurd (cc);
        carries = λ i seqs q h k. absurd (cc);
        used = λ i seqs h. absurd (cc);
        placed = λ i seqs h. absurd (cc);
        listed = λ d is i h k. absurd (cc);
        lists = λ d is h. absurd (cc);
        distinct = tt;
        counted = refl;
      };
      in_flight = λ m seqs q h k. absurd (cc);
      once = λ m seqs h. absurd (cc);
      apart = λ m m' seqs seqs' q h h' k k'. absurd (cc);
      of_message = λ q i h. absurd (cc);
    };
    entered = λ m seqs q h k. absurd (cc);
    drawn = λ i d h. absurd (cc);
  }

  -- If each socket gets an id of its own and may carry a message: after any sequence of sends,
  -- buffers that come back, cancelled messages and expired timers on a new controller, no clean-up
  -- has failed; each sequence number that a message has in the pool is on one open socket, listed
  -- for its destination and carrying no more messages than allowed, has its entry in the logic, and
  -- belongs to no other message; the count is that of the open sockets.
  pub run-new-IsSound : (c : Config) (os : List Op) → IsSound e (run e os (new c))
  run-new-IsSound c os = run_from-IsSound os (new c) (new-Agree c)

-- Where the books agree: after a message is cancelled, every sequence number that is still on a
-- socket belongs to another message.
pub stop_send-frees :
    (e : Env) (m : String) (s : MqSend)
    → Agree e s.logic s.socket
    → (q : ℕ) (i : String) → get q (stop_send e m s).0.socket.socket_map ≡ some i
    → (m' : String) × (seqs : List ℕ) × (get m' (stop_send e m s).0.socket.seq_id_list ≡ some seqs)
      × (includes q seqs ≡ true)
      × ((m == m') ≡ false)
unfolding stop_send emitted
stop_send-frees e m s a q i h =
    let (agree, none_left) = clean-Agree e m s.logic s.socket a in
    let (m', seqs, at, k) = agree.ledger.of_message q i h in
    (
      m',
      seqs,
      at,
      k,
      elim (Bool-cases (m == m')) [
        | inl t ↦ absurd (
            none_left seqs q
              (ap (λ r. get r (handle_all e (Logic.clean_up m s.logic).1 s.socket).0.seq_id_list)
                  ((==_iff m m').0 t)
                ∙ at)
              k)
        | inr f ↦ f
      ],
    )
