-- ===== src/SctpMatch/MatchesItems.antt =====
-- Each comparison of parameters, of causes and of whole SCTP chunks in
-- gtests/net/packetdrill/run_packet.c passes exactly the items that match.
use packetdrill.Base.{
  ℕ, ◌+◌, ◌≤◌, ◌≡◌, ◌↔◌, refl, Bool, true, false, List, none, some, if◌then◌else◌, length, arith,
}
use packetdrill.Sctp.{
  item_length, get_current_chunk, get_current_parameter, get_current_cause, sctp_parameters_begin,
  sctp_parameters_next, sctp_causes_begin, sctp_causes_next, sctp_chunks_next,
}
use std.Path.{fun_ext}
use packetdrill.Sctp.Walk.{iterators_agree}
use packetdrill.SctpMatch.Compare.{Place, CheckResult, passed}
use packetdrill.SctpMatch.Items.{ListItem}
use packetdrill.SctpMatch.Parameters.{
  sids_count, verify_parameter, verify_parameter_by_type, verify_outgoing_reset,
  verify_incoming_reset, verify_reconfig_response, verify_add_outgoing_streams,
  verify_add_incoming_streams, verify_parameter_value, verify_cause, verify_sctp_parameters,
  verify_sctp_causes,
}
use packetdrill.SctpMatch.Laws.{passed_iff}
use packetdrill.SctpMatch.Matches.{checks}
use packetdrill.SctpMatch.Tiles.{compare_items_iff}
use packetdrill.SctpMatch.SpecItems.{
  sids_behind, Either, ParameterMatches, ParameterValueMatches, CauseMatches, ParametersMatch,
  CausesMatch,
}

if_iff :
    (c : Bool) (a b : CheckResult) {P Q : Type 0}
    → ((a ≡ passed) ↔ P)
    → ((b ≡ passed) ↔ Q)
    → ((if c then a else b) ≡ passed) ↔ Either c P Q
if_iff true a b p q = (λ e. (λ t. p.0 e, λ f. absurd (cc f)), λ (x, y). p.1 (x refl))
if_iff false a b p q = (λ e. (λ t. absurd (cc t), λ f. q.0 e), λ (x, y). q.1 (y refl))

sids_count_16 : (length : ℕ) → sids_count length 16 ≡ sids_behind length 16
unfolding sids_count sids_behind
sids_count_16 length = ground arith

sids_count_8 : (length : ℕ) → sids_count length 8 ≡ sids_behind length 8
unfolding sids_count sids_behind
sids_count_8 length = ground arith

parameter_by_type_iff :
    (type_ : ℕ) (live script : Place) (flags : ℕ)
    → (verify_parameter_by_type type_ live script flags ≡ passed)
      ↔ ParameterValueMatches type_ live script flags
unfolding verify_parameter_by_type verify_outgoing_reset verify_incoming_reset
    verify_reconfig_response verify_add_outgoing_streams verify_add_incoming_streams
    verify_parameter_value
parameter_by_type_iff type_ live script flags =
    simp (sids_count_16, sids_count_8) (search (checks, if_iff, passed_iff) depth 24)

pub verify_parameter_iff :
    (live : Place) (item : ListItem)
    → (verify_parameter live item ≡ passed) ↔ ParameterMatches live item
unfolding verify_parameter
verify_parameter_iff live item = search (checks, parameter_by_type_iff) depth 12

pub verify_cause_iff :
    (live : Place) (item : ListItem) → (verify_cause live item ≡ passed) ↔ CauseMatches live item
unfolding verify_cause
verify_cause_iff live item = search checks depth 12

parameters_next : (memory : List ℕ) → sctp_parameters_next memory ≡ sctp_chunks_next memory
parameters_next memory = fun_ext (λ it. fun_ext (λ e. (iterators_agree memory it e).0))

causes_next : (memory : List ℕ) → sctp_causes_next memory ≡ sctp_chunks_next memory
causes_next memory = fun_ext (λ it. fun_ext (λ e. (iterators_agree memory it e).1))

-- The parameters of a chunk in the memory pass exactly if they correspond to the script's, one for
-- one.
pub verify_sctp_parameters_iff :
    (memory : List ℕ) (begin n : ℕ) (items : List ListItem)
    → begin + n ≤ length memory
    → (verify_sctp_parameters memory begin n items ≡ passed)
      ↔ ParametersMatch memory begin (begin + n) items
unfolding verify_sctp_parameters sctp_parameters_begin get_current_parameter get_current_chunk
verify_sctp_parameters_iff memory begin n items h = rw (parameters_next memory) (
    compare_items_iff memory (begin + n) _ _ (λ p k item e h4 hk. verify_parameter_iff _ item) _ _
      begin items h (omega arith))

causes_begin :
    (memory : List ℕ) (chunk n : ℕ)
    → item_length memory chunk ≡ some n
    → sctp_causes_begin memory chunk 4 none ≡ get_current_chunk memory (chunk + 4) (chunk + n)
unfolding sctp_causes_begin get_current_cause get_current_chunk
causes_begin memory chunk n e = rw (sctp_causes_begin, e) refl

pub verify_sctp_causes_iff :
    (memory : List ℕ) (chunk n : ℕ) (items : List ListItem)
    → item_length memory chunk ≡ some n
    → 4 ≤ n
    → chunk + n ≤ length memory
    → (verify_sctp_causes memory chunk 4 items ≡ passed)
      ↔ CausesMatch memory (chunk + 4) (chunk + n) items
unfolding verify_sctp_causes
verify_sctp_causes_iff memory chunk n items e h4 h =
    rw (verify_sctp_causes, causes_begin memory chunk n e, causes_next memory)
      (compare_items_iff memory (chunk + n) _ _ (λ p k item e h4 hk. verify_cause_iff _ item) _ _
        (chunk + 4) items h (omega arith))
