-- ===== src/Tests/Fairness.antt =====
-- Tests of the bands, the crossing and the admission lane.
use xtxc.Common.{
  ℕ, ◌≡◌, ◌↔◌, ◌≤◌, ◌*◌, refl, none, some, List, [], ◌∷◌, arith, true, false, replicate,
}
use xtxc.Common.Outcome.{ok, err, invalid_ticket, scale}
use xtxc.Fair.{
  Interval, Band, Crossing, buy_base, count_if, has_group, check_intervals, insert_sorted, sort,
  points, covering, through, visit, bridge, scan, consensus, midpoint, min_output, misses, cross,
}
use xtxc.Fair.Consensus.{consensus_exact}
use xtxc.Fair.Limits
use xtxc.Fair.Limits.{Worth, min_output_tightens, cross_fair}
use xtxc.Admission.{
  Request, Ticket, Entry, Admission, new_admission, purge, count_owned, first_free, enter, admit,
  pick, reads_of, writes_of, dispatch, find, complete,
}
use xtxc.Admission.Lane.{IsFair, has_id, is_open, total, admit-IsFair}
use xtxc.Admission.Moves.{Steps, at_start, admitted, dispatched}
use xtxc.Admission.Once.{complete_once}
use xtxc.Admission.Apart.{IsDispatched, AreApart, dispatch_safe, lane-AreApart}

abbrev interval : ℕ → ℕ → ℕ → Interval
interval group low high = record { group = group; low = low; high = high }

abbrev voices : List Interval
voices = interval 1 100 110 ∷ interval 2 104 112 ∷ interval 3 90 106 ∷ []

abbrev agreed : Band
agreed = record { low = 100; high = 110; groups = 3; quorum = 2 }

consensus_run : consensus voices 1 1_000 ≡ ok agreed
unfolding count_if has_group check_intervals insert_sorted sort points covering through visit bridge
    scan consensus
consensus_run = refl

consensus_exact_example :
    (agreed.low ≤ 105 × 105 ≤ agreed.high) ↔ (agreed.quorum ≤ covering voices 105)
consensus_exact_example = consensus_exact voices 1 1_000 agreed consensus_run 105

abbrev range : Band
range = record { low = 2 * scale; high = 4 * scale; groups = 3; quorum = 2 }

abbrev crossed : Crossing
crossed = record {
  base = 20;
  quote = 60;
  buyer_quote_residual = 0;
  seller_base_residual = 5;
  price_q32 = 3 * scale;
}

cross_run : cross range 60 15 25 50 ≡ ok crossed
unfolding cross misses midpoint
cross_run = refl

cross_fair_example : Limits.Crossed range 60 15 25 50 crossed
cross_fair_example = cross_fair range 60 15 25 50 crossed cross_run

min_output_run : min_output range 60 buy_base 10 ≡ ok 15
unfolding min_output
min_output_run = refl

min_output_tightens_example : (10 ≤ 15) × Worth buy_base range 60 15
min_output_tightens_example = min_output_tightens range 60 buy_base 10 15 min_output_run

abbrev request : Request
request = record { owner = 1; nonce = 1; read_resources = 1; write_resources = 2; deadline = 9 }

abbrev empty_lane : Admission
empty_lane = record { entries = none ∷ none ∷ []; generation = 0; cursor = 0 }

abbrev waiting : Entry
waiting = record { request = request; generation = 1; in_flight = false; completed = false }

abbrev lane : Admission
lane = record { entries = some waiting ∷ none ∷ []; generation = 1; cursor = 0 }

abbrev busy_lane : Admission
busy_lane = record {
  entries = some (record waiting { in_flight = true }) ∷ none ∷ [];
  generation = 1;
  cursor = 1;
}

abbrev ticket : Ticket
ticket = record { index = 0; generation = 1 }

empty_lane-IsFair : IsFair empty_lane
unfolding has_id is_open total
empty_lane-IsFair = (λ o n. omega arith, λ o. omega arith)

admit_run : admit empty_lane request 5 ≡ (ok ticket, lane)
unfolding admit purge enter count_owned first_free
admit_run = refl

admit-IsFair_example : IsFair (admit empty_lane request 5).1
admit-IsFair_example = admit-IsFair empty_lane request 5 empty_lane-IsFair

lane-IsFair : IsFair lane
unfolding admit purge enter count_owned first_free
lane-IsFair = admit-IsFair empty_lane request 5 empty_lane-IsFair

dispatch_run : dispatch lane 5 ≡ (some (ticket, request), busy_lane)
unfolding dispatch pick reads_of writes_of
dispatch_run = refl

dispatch_safe_example : IsDispatched lane 5 ticket request × IsFair busy_lane
dispatch_safe_example = dispatch_safe lane 5 ticket request busy_lane dispatch_run lane-IsFair

-- A ticket from the new lane on: its request is completed, and its place is taken again.
abbrev other : Request
other = record { owner = 2; nonce = 7; read_resources = 8; write_resources = 4; deadline = 30 }

abbrev entered_lane : Admission
entered_lane = (admit new_admission request 5).1

abbrev started_lane : Admission
started_lane = (dispatch entered_lane 5).1

abbrev ended_lane : Admission
ended_lane = record {
  entries = some (record waiting { completed = true }) ∷ replicate 255 none;
  generation = 1;
  cursor = 1;
}

abbrev reused_lane : Admission
reused_lane = (dispatch (admit ended_lane other 20).1 20).1

reused_run :
    reused_lane.entries
    ≡ some (record { request = other; generation = 2; in_flight = true; completed = false })
      ∷ replicate 255 none
unfolding admit purge enter count_owned first_free dispatch pick reads_of writes_of
reused_run = refl

started_Steps : Steps new_admission started_lane
started_Steps =
    dispatched entered_lane started_lane 5
      (admitted new_admission entered_lane request 5 at_start refl) refl

ended_run : complete started_lane ticket ≡ ok ended_lane
unfolding complete find admit purge enter count_owned first_free dispatch pick reads_of writes_of
ended_run = refl

reused_Steps : Steps ended_lane reused_lane
reused_Steps =
    dispatched (admit ended_lane other 20).1 reused_lane 20
      (admitted ended_lane (admit ended_lane other 20).1 other 20 at_start refl) refl

complete_once_example : complete reused_lane ticket ≡ err invalid_ticket
complete_once_example =
    complete_once started_lane ended_lane reused_lane ticket started_Steps ended_run reused_Steps

-- Two requests in flight at once.
abbrev both_lane : Admission
both_lane = (dispatch (admit started_lane other 6).1 6).1

both_run :
    both_lane.entries
    ≡ some (record waiting { in_flight = true })
      ∷ some (record { request = other; generation = 2; in_flight = true; completed = false })
      ∷ replicate 254 none
unfolding admit purge enter count_owned first_free dispatch pick reads_of writes_of
both_run = refl

both_Steps : Steps new_admission both_lane
both_Steps =
    dispatched (admit started_lane other 6).1 both_lane 6
      (admitted started_lane (admit started_lane other 6).1 other 6 started_Steps refl) refl

lane-AreApart_example : AreApart both_lane
lane-AreApart_example = lane-AreApart both_lane both_Steps
