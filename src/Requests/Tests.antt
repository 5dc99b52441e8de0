-- ===== src/Requests/Tests.antt =====
-- Requests at work.
use osns.Prelude.{ℕ, ◌+◌, ◌≡◌, refl, arith, true, false, none, List, [], ◌∷◌}
use osns.SshString.{done}
use osns.SimpleList.{Addr, standalone_element_ops, empty_header_ops}
use osns.SimpleHash.Create.{fresh_headers, new_group-IsTable}
use osns.Channels.Invariant.{as_group, number}
use osns.Requests.{Requests, hashsize, with_heap}
use osns.Requests.Loop.{answer, complete, wrong, woken, expires, Round, result, wait_sftp_response}
use osns.Requests.Table.{as_channels, IsRows}
use osns.Requests.Events.{IsAbsent}
use osns.Requests.Wait.{Ends, IsOpen}
use osns.Requests.Answered.{wait_sftp_response-Ends}
use osns.Requests.Live.{idle, quiet, wait_sftp_response-answered}

-- Requests with the ids 64 and up, of which none was sent.
abbrev static : Requests
static = record {
  heap = record {
    h = λ _. none;
    n = λ _. none;
    p = λ _. none;
    ops = λ _. standalone_element_ops;
    headers = λ _. record { flags = 0; count = 0; ops = empty_header_ops };
  };
  id = λ i. i + 64;
  status = λ _. 1;
  error = λ _. 0;
  held = none;
  initdone = true;
}

abbrev empty : Requests
empty = with_heap static (fresh_headers hashsize 0 static.heap)

empty-IsRows : IsRows empty (λ _. [])
empty-IsRows = new_group-IsTable number hashsize 0 (as_group (as_channels static)) (omega arith)

unsent-IsOpen : IsOpen 1
unfolding osns.Requests.has_bit
unsent-IsOpen = (refl, refl, refl)

-- An answer to another request, an answer to this one, an interrupt, and a signal that the answer is wrong.
abbrev rounds : List Round
rounds =
    quiet (answer 70 ∷ complete ∷ answer 67 ∷ [])
    ∷ record {
      interrupted = true;
      breaks = false;
      on_sequence = false;
      disconnected = false;
      wake = woken (wrong ∷ []);
    }
    ∷ quiet []
    ∷ []

wait_sftp_response-Ends_example : Ends 3 (wait_sftp_response 3 rounds empty)
unfolding osns.Requests.Events.is_held osns.Channels.Members.contains
wait_sftp_response-Ends_example =
    wait_sftp_response-Ends 3 rounds empty (λ _. []) empty-IsRows (λ _ _. omega arith) (λ _ _. refl)
      refl unsent-IsOpen

abbrev late : Round
late = record (quiet []) { wake = expires }

wait_sftp_response-answered_example :
    (t' : Requests) × (wait_sftp_response 3
        (idle 2 (quiet (answer 67 ∷ complete ∷ []) ∷ late ∷ []))
        empty
      ≡ done (result true, t'))
    × (b' : ℕ → List Addr) × IsRows t' b'
    × IsAbsent 3 b'
unfolding osns.Channels.Members.contains
wait_sftp_response-answered_example =
    wait_sftp_response-answered 3 2 (late ∷ []) empty (λ _. []) empty-IsRows (λ _ _. omega arith)
      (λ _ _. refl) (λ j no. absurd cc) unsent-IsOpen
