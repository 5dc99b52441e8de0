-- ===== src/Requests/Loop.antt =====
-- The wait for an answer: wait_sftp_response of src/sftp/request-hash.c, and what the receiving thread does
-- meanwhile.
use osns.Prelude.{ℕ, ◌%◌, Bool, true, false, Option, none, some, List, [], ◌∷◌, if◌then◌else◌}
use osns.SshString.{Run, done}
use osns.SimpleList.{element, init_list_element}
use osns.Payload.{◌>>=◌}
use osns.Requests.{
  Requests, hashsize, has_bit, set_bit, clear_bit, response, finish, interrupt, timedout,
  disconnect, failure, write_status, write_error, with_heap, add_request_hashtable,
  remove_request_hashtable, get_sftp_request, signal_sftp_received_id,
  signal_sftp_received_id_error,
}

-- What the receiving thread does: it gets an answer to the request with a number, and looks it up; or it
-- signals that the request that it holds is complete, or that its answer is wrong.
pub data Event : Type 0 where
  answer : ℕ → Event
  complete wrong : Event

unfoldable pub signal_held : (ℕ → Requests → Requests) → Option ℕ → Requests → Requests
signal_held signal none t = t
signal_held signal (some i) t = record (signal i t) { held = none }

unfoldable pub receive : Event → Requests → Run Requests
unfolding get_sftp_request signal_held signal_sftp_received_id signal_sftp_received_id_error
receive (answer id) t = do (found, t') ← get_sftp_request id t; done (record t' { held = found })
receive complete t = done (signal_held signal_sftp_received_id t.held t)
receive wrong t = done (signal_held signal_sftp_received_id_error t.held t)

unfoldable pub receive_all : List Event → Requests → Run Requests
unfolding receive
receive_all [] t = done t
receive_all (e ∷ es) t = do t' ← receive e t; receive_all es t'

-- How `signal_condtimedwait` ends: by a signal, after some events, by the time, or with another error.
pub data Wake : Type 0 where
  woken : List Event → Wake
  expires : Wake
  fails : ℕ → Wake

-- What the callbacks `cb_interrupted` and `break_request` say, whether there is a signal on the sequence
-- number of the request, whether the connection has ended, and how the wait ends that follows.
pub record Round : Type 0 where
  pub interrupted : Bool
  pub breaks : Bool
  pub on_sequence : Bool
  pub disconnected : Bool
  pub wake : Wake

-- The results 0 and 1, or a thread that waits when the rounds end.
pub data Ended : Type 0 where
  result : Bool → Ended
  still_waiting : Ended

-- The request is given up, with an error. Some branches of the source write the status and the error behind
-- the removal: these are other fields.
unfoldable pub give_up : ℕ → (ℕ → ℕ) → ℕ → Requests → Run (Ended × Requests)
unfolding write_status write_error remove_request_hashtable
give_up i f error t = do
  t' ← remove_request_hashtable i (write_error i error (write_status i f t))
  done (result false, t')

-- The wait, with what follows a signal.
unfoldable pub sleep :
    ℕ → Wake → Requests → (List Event → Requests → Run (Ended × Requests)) → Run (Ended × Requests)
unfolding give_up set_bit
sleep i (woken events) t go_on = go_on events t
sleep i expires t go_on = give_up i (λ f. set_bit timedout f) 110 t
sleep i (fails n) t go_on = give_up i (λ f. set_bit failure f) n t

-- The tests of a round, from the one for an interrupt on. Where break_request breaks the wait it sets the bit
-- for the end of the connection, as the one of src/interface/sftp.c does; the default one never breaks it.
unfoldable pub check :
    ℕ
    → Round
    → Requests
    → Run (Ended × Requests)
    → (Requests → Run (Ended × Requests))
    → Run (Ended × Requests)
unfolding give_up has_bit set_bit
check i r t answered sleeps =
    if r.interrupted
    then answered
    else if r.breaks
    then give_up i (λ f. set_bit disconnect f) 107 t
    else if has_bit failure (t.status i)
    then done (result false, t)
    else if r.on_sequence
    then give_up i (λ f. set_bit failure f) 5 t
    else if r.disconnected
    then give_up i (λ f. set_bit disconnect f) 103 t
    else sleeps t

-- An interrupt: a request to which an answer is being read waits for it.
unfoldable pub interrupts :
    ℕ → Requests → (Requests → Run (Ended × Requests)) → Run (Ended × Requests)
unfolding has_bit set_bit clear_bit give_up write_status
interrupts i t sleeps =
    if has_bit response (t.status i)
    then sleeps (write_status i (λ f. clear_bit interrupt f) t)
    else give_up i (λ f. set_bit interrupt f) 4 t

-- The loop of `wait_sftp_response`.
unfoldable pub wait_loop : ℕ → List Round → Requests → Run (Ended × Requests)
unfolding has_bit check interrupts sleep receive_all
wait_loop i [] t = done (if has_bit finish (t.status i) then result true else still_waiting, t)
wait_loop i (r ∷ rounds) t =
    let sleeps : Requests → Run (Ended × Requests) = λ t'.
      sleep i r.wake t' (λ events t''. do t3 ← receive_all events t''; wait_loop i rounds t3) in
    if has_bit finish (t.status i)
    then done (result true, t)
    else check i r t (interrupts i t sleeps) sleeps

unfoldable pub wait_sftp_response : ℕ → List Round → Requests → Run (Ended × Requests)
unfolding add_request_hashtable wait_loop
wait_sftp_response i rounds t = do
  t' ←
      add_request_hashtable i
        (with_heap t (init_list_element (element i) (some (t.id i % hashsize)) t.heap))
  wait_loop i rounds t'
