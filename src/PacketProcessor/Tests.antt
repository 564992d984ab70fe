-- ===== src/PacketProcessor/Tests.antt =====
-- The packet processor on concrete packets, with modules that count.
use netmate_flowcalc.IdSource.{make, new_id}
use netmate_flowcalc.Common.{
  inl, inr, zero, suc, subst, some_inj, ℕ, ◌+◌, ◌≤◌, ◌≡◌, refl, true, false, List, [], ◌∷◌, none,
  some, ◌==◌, if◌then◌else◌, arith, Returns, length, get_elem?,
}
use netmate_flowcalc.Common.Int.{◌+ℤ◌, pos}
use netmate_flowcalc.Classifier.{MetaData}
use netmate_flowcalc.ProcModule.{Packet, ProcModule}
use netmate_flowcalc.PacketProcessor.Flows.{AllLive}
use netmate_flowcalc.FlowCreator.{eqkey, make_flows, FlowInfo, get_flow}
use netmate_flowcalc.PacketProcessor.{RuleActions, Rule}
use netmate_flowcalc.PacketProcessor.Key.{
  append_key, end_keys, Filter, flow_keys_of, build_keys, filter_keys, read_field, reverse_field,
  encoded, shifted,
}
use netmate_flowcalc.PacketProcessor.Key.Swap.{IsReply, flow_keys_of-reply}
use netmate_flowcalc.PacketProcessor.Key.Size.{flow_keys_of-fits}
use netmate_flowcalc.PacketProcessor.Sequence.{
  AllInside, AllMatched, CanTake, AllCanTake, process_packets, process_packets-Returns,
}
use netmate_flowcalc.PacketProcessor.Dispatch.{PacketProcessor}
use netmate_flowcalc.PacketProcessor.Process.{
  run_actions, run_action, export_record, is_one, with_reverse, choose_flow,
}
use netmate_flowcalc.PacketProcessor.Dispatch.{
  process_flow, process_auto, process_rule, process_plain,
}
use netmate_flowcalc.PacketProcessor.Directions.{process_auto-conversation}
use netmate_flowcalc.PacketProcessor.Running.{process_auto-Returns, IsRunning, HasKeys}
use netmate_flowcalc.PacketProcessor.Export.{is_past, any_past, export_rule, rule_timeout}
use netmate_flowcalc.PacketProcessor.Export.Timeout.{
  IsExported, export_rule-IsExported, rule_timeout-export_rule,
}
use netmate_flowcalc.PacketProcessor.Rules.{
  grow, collect_one, collect, RuleSpec, proc, make_entry, start_action, add_rule, del_rule, blank,
}
use netmate_flowcalc.PacketProcessor.Rules.Lifetime.{
  add_rule-IsRunning, del_rule-process_rule, entry-IsRunning,
}
use netmate_flowcalc.PacketProcessor.Rules.Dangling.{process_plain_dangles}

-- A module that counts packets, and one that asks for an export at every packet.
abbrev counter : ProcModule ℕ
counter = record {
  mod_name = "count";
  init_flow_rec = λ params. (pos 0, 0);
  process_packet = λ pkt s. (pos 0, s + 1);
  export_data = λ s. (s ∷ [], s);
  reset_flow_rec = λ s. 0;
  timeout = λ tm s. s;
  get_timers = λ s. [];
}

abbrev exporter : ProcModule ℕ
exporter = record counter { process_packet = λ pkt s. (pos 1, s + 1) }

-- The source address, whose reverse is the destination address.
abbrev src_ip : Filter
src_ip = record {
  rname_empty = false;
  type = "IPAddr";
  refer = 1;
  rrefer = 1;
  offs = 0;
  roffs = 1;
  len = 1;
  fdmask = λ i. 255;
  fdshift = 0;
  mask = λ i. 255;
}

abbrev meta_of : ℕ → ℕ → MetaData
meta_of src dst = record {
  offs = λ i. pos 0;
  payload = λ i. if i == 0 then src else dst;
  reverse = 0;
  match_cnt = 1;
  matches = λ i. 1;
}

abbrev packet : ℕ → ℕ → ℕ → Packet
packet src dst time = record {
  meta = meta_of src dst;
  cap_len = 60;
  len = 60;
  tv_sec = time;
  tv_usec = 0;
}

abbrev a_rule : Rule
a_rule = record { rule_name = "all"; exports = "text_file" ∷ [] }

abbrev spec : RuleSpec
spec = record {
  uid = 1;
  rule = a_rule;
  actions = record { name = "count"; conf = [] } ∷ [];
  auto_flows = true;
  bidir = true;
  seppaths = false;
  flist = src_ip ∷ [];
}

abbrev fresh : RuleActions ℕ
unfolding make_entry start_action
fresh = make_entry spec (start_action counter [] ∷ [])

abbrev fresh_plain : RuleActions ℕ
unfolding make_entry start_action
fresh_plain = record (make_entry spec (start_action exporter [] ∷ [])) { auto_flows = false }

flow_keys_of_test : flow_keys_of (meta_of 10 20) true false (src_ip ∷ []) ≡ some (10 ∷ [], 20 ∷ [])
unfolding flow_keys_of build_keys filter_keys read_field ◌+ℤ◌ reverse_field encoded shifted
    append_key end_keys
flow_keys_of_test = refl

meta_of-IsReply : IsReply (meta_of 10 20) (meta_of 20 10) (src_ip ∷ [])
unfolding read_field ◌+ℤ◌
meta_of-IsReply =
    (record { same = λ e. cc e; back = λ e. refl; forth = λ e. refl; unshifted = λ e. refl }, tt)

flow_keys_of-reply_example :
    flow_keys_of (meta_of 20 10) true false (src_ip ∷ []) ≡ some (20 ∷ [], 10 ∷ [])
flow_keys_of-reply_example =
    flow_keys_of-reply (meta_of 10 20) (meta_of 20 10) false (src_ip ∷ []) (10 ∷ []) (20 ∷ [])
      meta_of-IsReply flow_keys_of_test

inside : AllInside (packet 10 20 5 ∷ packet 20 10 6 ∷ []) (src_ip ∷ [])
unfolding ◌+ℤ◌
inside = (((0, refl), (λ e. (1, refl)), tt), (((0, refl), (λ e. (1, refl)), tt), tt))

flow_keys_of-fits_example :
    Returns
      (flow_keys_of (meta_of 10 20) true true (src_ip ∷ []))
      (λ (m, r). (length m ≤ 1024) × (length r ≤ 1024))
flow_keys_of-fits_example =
    flow_keys_of-fits (meta_of 10 20) true true (src_ip ∷ []) (omega arith, tt) (omega arith)
      inside.0

-- The rule after a packet from 10 to 20.
abbrev the_flow : FlowInfo ℕ
the_flow = record {
  last_pkt = 6;
  actions = record { module_of = counter; flow_data = some 1; params = [] } ∷ [];
  key_data = 10 ∷ [];
  flow_id = 0;
  new_flow = 1;
}

abbrev after : RuleActions ℕ
after = record fresh {
  last_pkt = 6;
  flow_key_len = 1;
  flows = record {
    id_source = record { num = 1; unique = 1; free_ids = [] };
    flows = (10 ∷ [], the_flow) ∷ [];
  };
}

process_auto_test : process_auto true 1 (packet 10 20 5) fresh ≡ some (after, packet 10 20 5, [])
unfolding process_auto flow_keys_of build_keys fresh filter_keys read_field ◌+ℤ◌ reverse_field
    append_key end_keys process_flow choose_flow make_flows with_reverse encoded new_id eqkey
    shifted make
process_auto_test = refl

get_flow_test : get_flow (10 ∷ []) after.flows ≡ some the_flow
unfolding get_flow eqkey
get_flow_test = refl

process_auto-conversation_example :
    (get_flow (10 ∷ []) after.flows ≡ some the_flow)
    × (choose_flow after 0 (10 ∷ []) (20 ∷ [])
        ≡ record { flow = some the_flow; key = 10 ∷ []; reverse = 0 })
    × (choose_flow after 0 (20 ∷ []) (10 ∷ [])
        ≡ record { flow = some the_flow; key = 20 ∷ []; reverse = 1 })
unfolding choose_flow fresh make_flows
process_auto-conversation_example =
    process_auto-conversation true 1 (packet 10 20 5) (packet 10 20 5) fresh after (10 ∷ [])
      (20 ∷ []) [] the_flow refl refl flow_keys_of_test (λ e. cc e) refl process_auto_test
      (inl get_flow_test) 0

fresh-IsRunning : IsRunning 5 fresh
unfolding fresh make_entry
fresh-IsRunning = entry-IsRunning spec (start_action counter [] ∷ []) 5 refl (omega arith)

have_keys : HasKeys (packet 10 20 5) fresh
unfolding flow_keys_of build_keys fresh
have_keys = rw flow_keys_of_test tt

after-IsRunning : IsRunning 4 after
after-IsRunning =
    let ok = process_auto-Returns true 1 (packet 10 20 5) 4 fresh fresh-IsRunning have_keys in
    (rw process_auto_test at ok).0

-- After 60 s the flow of the packet at 5 s is idle.
rule_timeout_test : rule_timeout after 60 70 ≡ 0
unfolding rule_timeout fresh any_past
rule_timeout_test = refl

export_rule-IsExported_example :
    Returns (export_rule 70 60 after) (λ (ra, md). IsExported 4 70 60 after ra md)
export_rule-IsExported_example = export_rule-IsExported 4 70 60 after (omega arith) after-IsRunning

rule_timeout-export_rule_example : Returns (export_rule 70 60 after) (λ (ra, md).
    ((key : List ℕ) × (f : FlowInfo ℕ) × (get_flow key after.flows ≡ some f)
      × (get_flow key ra.flows ≡ none))
    × ((key : List ℕ) (f : FlowInfo ℕ)
        → get_flow key ra.flows ≡ some f
        → is_past f.last_pkt 60 70 ≡ false)
    × (rule_timeout ra 60 70 ≡ 1))
rule_timeout-export_rule_example =
    rule_timeout-export_rule 4 70 60 after (omega arith) after-IsRunning rule_timeout_test

abbrev one_rule : List (RuleActions ℕ)
unfolding blank
one_rule = blank a_rule ∷ []

abbrev two_rules : List (RuleActions ℕ)
two_rules = blank a_rule ∷ fresh ∷ []

abbrev processor : PacketProcessor ℕ
processor = record { rules = two_rules; expt = true; stored = [] }

abbrev two_packets : List Packet
two_packets = packet 10 20 5 ∷ packet 20 10 6 ∷ []

two_rules-AllCanTake : AllCanTake 5 two_packets two_rules
unfolding fresh make_entry blank
two_rules-AllCanTake zero ra e = subst (CanTake 5 two_packets) (some_inj e) (inl refl)
two_rules-AllCanTake (suc zero) ra e =
    subst (CanTake 5 two_packets) (some_inj e)
      (inr (fresh-IsRunning, (omega arith, tt), omega arith, inside))
two_rules-AllCanTake (suc (suc i)) ra e = cc e

two_packets-AllMatched : AllMatched 2 two_packets
two_packets-AllMatched = ((λ j u. omega arith), ((λ j u. omega arith), tt))

process_packets-Returns_example :
    Returns (process_packets two_packets processor) (λ pp. AllCanTake 3 [] pp.rules)
process_packets-Returns_example =
    process_packets-Returns 3 two_packets processor two_rules-AllCanTake two_packets-AllMatched

add_rule_test : add_rule (λ name. proc counter) spec one_rule ≡ some (two_rules, true, [])
unfolding add_rule collect collect_one grow fresh make_entry
add_rule_test = refl

add_rule-IsRunning_example :
    ((ra : RuleActions ℕ) × (get_elem? two_rules 1 ≡ some ra)
      × IsRunning 5 ra
      × (ra.actions ≡ start_action counter [] ∷ [])
      × AllLive ra.actions
      × (ra.bidir ≡ true))
    × (get_elem? two_rules 0 ≡ get_elem? one_rule 0)
unfolding one_rule start_action
add_rule-IsRunning_example =
    add_rule-IsRunning (λ name. proc counter) spec one_rule two_rules true [] 5 0 refl (omega arith)
      (omega arith) (omega arith) add_rule_test

del_rule-process_rule_example : Returns (del_rule 1 two_rules) (λ rules.
    ((ra : RuleActions ℕ) × (get_elem? rules 1 ≡ some ra)
      × (process_rule true 1 (packet 10 20 5) ra ≡ some (ra, packet 10 20 5, [])))
    × (get_elem? rules 0 ≡ get_elem? two_rules 0))
unfolding fresh make_entry
del_rule-process_rule_example =
    del_rule-process_rule 1 5 0 two_rules fresh true (packet 10 20 5) (omega arith) refl
      fresh-IsRunning ((λ e. cc e), tt)

abbrev exported : RuleActions ℕ
exported = record fresh_plain {
  actions = record { module_of = exporter; flow_data = none; params = [] } ∷ [];
  new_flow = 0;
  last_pkt = 6;
}

process_plain_test : process_plain false 1 (packet 10 20 5) fresh_plain ≡ some (exported, [])
unfolding process_plain exported fresh_plain run_actions run_action export_record is_one make_entry
    start_action
process_plain_test = refl

process_plain_dangles_example : process_plain false 1 (packet 10 20 9) exported ≡ none
unfolding fresh_plain make_entry
process_plain_dangles_example =
    process_plain_dangles false 1 (packet 10 20 5) (packet 10 20 9) fresh_plain exported []
      process_plain_test (λ e. omega (arith, e)) refl
