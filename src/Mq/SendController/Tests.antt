-- ===== src/Mq/SendController/Tests.antt =====
-- The controller on small runs: two messages to one destination share its socket.
use ndidplatform_api.Base.{
  ℕ, zero, suc, String, ◌≡◌, refl, ap, none, some, List, [], ◌∷◌, string_eq, nat_eq, arith, get,
  put, includes, delete, remove_first,
}
use ndidplatform_api.Mq.Logic.{Dest, buffer, Config}
use ndidplatform_api.Mq.Logic
use ndidplatform_api.Mq.SendSocket
use ndidplatform_api.Mq.Protocol.{generate_send_msg}
use ndidplatform_api.Mq.SendController.{
  Env, MqSend, new, stop_send, send, timer, emitted, handle, handle_all, send_on_socket,
}
use ndidplatform_api.Mq.SendController.Steps.{
  Op, sends, stops, times_out, step, run, IsSound, run-new-IsSound,
}

socket_name : ℕ → String
socket_name zero = String.[]
socket_name (suc n) = String.◌∷◌ "s" (socket_name n)

socket_name-apart : (p q : ℕ) → socket_name p ≡ socket_name q → p ≡ q
unfolding socket_name
socket_name-apart zero zero h = refl
socket_name-apart zero (suc q) h = absurd (cc)
socket_name-apart (suc p) zero h = absurd (cc)
socket_name-apart (suc p) (suc q) h = ap suc (socket_name-apart p q (cc))

abbrev env : Env
env = record {
  max_messages_per_socket = 2;
  sender_id = "rp";
  codec = record { encode = λ m. some m.message; decode = λ b. none };
  dest_key = λ d. d.ip;
  socket_id = socket_name;
}

abbrev config : Config
config = record { total_timeout = some 100; timeout = some 30; id = none }

abbrev to : Dest
to = record { ip = "10.0.0.1"; port = 5555 }

abbrev traffic : List Op
traffic =
    sends to (buffer (1 ∷ [])) "a" none
    ∷ sends to (buffer (2 ∷ [])) "b" none
    ∷ sends to (buffer (3 ∷ [])) "c" (some 9)
    ∷ times_out 1
    ∷ stops "a"
    ∷ []

abbrev busy : MqSend
busy = (run env traffic (new config)).0

run-new-IsSound_example : IsSound env (run env traffic (new config))
run-new-IsSound_example = run-new-IsSound env socket_name-apart (omega arith) config traffic

-- "a" and the first "b" share the first socket, "c" and the second "b" the second.
shared : busy.socket.socket_map ≡ (2, socket_name 1) ∷ (3, socket_name 3) ∷ (4, socket_name 3) ∷ []
unfolding run step new send stop_send timer emitted handle handle_all send_on_socket socket_name get
    put delete includes remove_first generate_send_msg Logic.new Logic.send Logic.perform_send
    Logic.clean_up Logic.clean_up_loop Logic.clear_timeout Logic.delete_all Logic.fire
    Logic.find_timer Logic.fire_found Logic.retry Logic.reached_max SendSocket.new SendSocket.send
    SendSocket.register SendSocket.find_socket SendSocket.choose_socket SendSocket.attach
    SendSocket.clean_up SendSocket.clean_up_seqs SendSocket.clean_up_seq SendSocket.and_then
    SendSocket.forget_seq SendSocket.forget_message SendSocket.release SendSocket.close_socket
shared = refl

third_left : get 3 (stop_send env "b" busy).0.socket.socket_map ≡ some (socket_name 3)
unfolding run step new send stop_send timer emitted handle handle_all send_on_socket socket_name get
    put delete includes remove_first generate_send_msg Logic.new Logic.send Logic.perform_send
    Logic.clean_up Logic.clean_up_loop Logic.clear_timeout Logic.delete_all Logic.fire
    Logic.find_timer Logic.fire_found Logic.retry Logic.reached_max SendSocket.new SendSocket.send
    SendSocket.register SendSocket.find_socket SendSocket.choose_socket SendSocket.attach
    SendSocket.clean_up SendSocket.clean_up_seqs SendSocket.clean_up_seq SendSocket.and_then
    SendSocket.forget_seq SendSocket.forget_message SendSocket.release SendSocket.close_socket
third_left = refl
