-- ===== src/Classifier/Report.antt =====
-- What `classify` of src/netmate/ClassifierSimple.cc reports of the rules that match.
use netmate_flowcalc.Common.{
  ℕ, suc, ◌+◌, ◌/◌, ◌%◌, ◌<◌, ◌≤◌, ◌≡◌, refl, ap, ◌∙◌, Bool, true, false, ◌||◌, List, [], ◌∷◌, map,
  some, ◌==◌, ltb, if◌then◌else◌, arith, length, Bool-cases, inl, inr,
}
use netmate_flowcalc.Common.Int.{ℤ, pos, negsuc}
use netmate_flowcalc.Classifier.{
  Match, MetaData, returned, follows, decide, classify_rules, classify, try_matches, record_match,
  accepts, masked, max_rules_match,
}

-- Every header that a match refers to is there.
abbrev pub HasOffsets : MetaData → List Match → Type 0
HasOffsets pkt [] = Unit {0}
HasOffsets pkt (m ∷ ms) = (o : ℕ) × (pkt.offs m.refer ≡ pos o) × HasOffsets pkt ms

abbrev pub AllHaveOffsets : MetaData → List (ℕ × List Match) → Type 0
AllHaveOffsets pkt [] = Unit {0}
AllHaveOffsets pkt ((key, ms) ∷ rules) = HasOffsets pkt ms × AllHaveOffsets pkt rules

-- Whether all matches of a rule accept the packet.
abbrev pub fits : MetaData → List Match → Bool
fits pkt [] = true
fits pkt (m ∷ ms) = elim (pkt.offs m.refer) [
  | negsuc n ↦ false
  | pos o ↦ if accepts m (masked pkt m o) then fits pkt ms else false
]

-- The keys of the rules that match, in order.
abbrev pub hits : MetaData → List (ℕ × List Match) → List ℕ
hits pkt [] = []
hits pkt ((key, ms) ∷ rules) = if fits pkt ms then key ∷ hits pkt rules else hits pkt rules

-- Without those that directly follow the key kept before.
abbrev pub kept : ℤ → List ℕ → List ℕ
kept last [] = []
kept last (k ∷ ks) = if follows last k then kept last ks else k ∷ kept (pos k) ks

abbrev record_all : List ℕ → MetaData → MetaData
record_all [] pkt = pkt
record_all (k ∷ ks) pkt = record_all ks (record_match k pkt)

try-fits :
    (pkt : MetaData) (ms : List Match) → HasOffsets pkt ms → try_matches pkt ms ≡ some (fits pkt ms)
unfolding try_matches
try-fits pkt [] h = refl
try-fits pkt (m ∷ ms) (o, e, h) = elim (Bool-cases (accepts m (masked pkt m o))) [
  | inl a ↦ rw (e, try_matches, fits, a) (try-fits pkt ms h)
  | inr a ↦ rw (e, try_matches, fits, a)
]

-- Recording a match changes no header.
offsets-record :
    (k : ℕ) (pkt : MetaData) (ms : List Match)
    → HasOffsets pkt ms
    → HasOffsets (record_match k pkt) ms
unfolding record_match
offsets-record k pkt [] h = tt
offsets-record k pkt (m ∷ ms) (o, e, h) = (o, e, offsets-record k pkt ms h)

all_offsets-record :
    (k : ℕ) (pkt : MetaData) (rules : List (ℕ × List Match))
    → AllHaveOffsets pkt rules
    → AllHaveOffsets (record_match k pkt) rules
all_offsets-record k pkt [] h = tt
all_offsets-record k pkt ((key, ms) ∷ rules) h =
    (offsets-record k pkt ms h.0, all_offsets-record k pkt rules h.1)

abbrev changed : MetaData → ℕ → ℕ → (ℕ → ℕ) → MetaData
changed pkt r n a = record pkt { reverse = r; match_cnt = n; matches = a }

fits-changed :
    (pkt : MetaData) (r n : ℕ) (a : ℕ → ℕ) (ms : List Match)
    → fits (changed pkt r n a) ms ≡ fits pkt ms
fits-changed pkt r n a [] = refl
fits-changed pkt r n a (m ∷ ms) = ground (arith, fits-changed pkt r n a ms)

hits-changed :
    (pkt : MetaData) (r n : ℕ) (a : ℕ → ℕ) (rules : List (ℕ × List Match))
    → hits (changed pkt r n a) rules ≡ hits pkt rules
hits-changed pkt r n a [] = refl
hits-changed pkt r n a ((key, ms) ∷ rules) =
    rw (fits-changed pkt r n a ms, hits-changed pkt r n a rules)

-- Below the last place of the array the payload stays.
payload-record :
    (k : ℕ) (pkt : MetaData) → pkt.match_cnt < 128 → (record_match k pkt).payload ≡ pkt.payload
unfolding record_match
payload-record k pkt h =
    let inside : (pkt.match_cnt == max_rules_match) ≡ false = ground arith in rw inside refl

record_changed :
    (k : ℕ) (pkt : MetaData)
    → pkt.match_cnt < 128
    → record_match k pkt
      ≡ changed pkt
          (record_match k pkt).reverse
          (record_match k pkt).match_cnt
          (record_match k pkt).matches
unfolding record_match
record_changed k pkt h =
    let inside : (pkt.match_cnt == max_rules_match) ≡ false = ground arith in rw inside refl

hits-record :
    (k : ℕ) (pkt : MetaData) (rules : List (ℕ × List Match))
    → pkt.match_cnt < 128
    → hits (record_match k pkt) rules ≡ hits pkt rules
hits-record k pkt rules h =
    ap (λ t. hits t rules) (record_changed k pkt h)
    ∙ hits-changed pkt (record_match k pkt).reverse (record_match k pkt).match_cnt
        (record_match k pkt).matches rules

-- One turn of the loop, for each of its outcomes here.
turn_miss :
    (key : ℕ) (ms : List Match) (rules : List (ℕ × List Match)) (last : ℤ) (pkt : MetaData)
    → HasOffsets pkt ms
    → fits pkt ms ≡ false
    → classify_rules ((key, ms) ∷ rules) last pkt ≡ classify_rules rules last pkt
unfolding classify_rules decide
turn_miss key ms rules last pkt h f = rw (classify_rules, try-fits pkt ms h, decide, f)

turn_follows :
    (key : ℕ) (ms : List Match) (rules : List (ℕ × List Match)) (last : ℤ) (pkt : MetaData)
    → HasOffsets pkt ms
    → fits pkt ms ≡ true
    → follows last key ≡ true
    → classify_rules ((key, ms) ∷ rules) last pkt ≡ classify_rules rules last pkt
unfolding classify_rules decide
turn_follows key ms rules last pkt h f g = rw (classify_rules, try-fits pkt ms h, decide, f, g)

turn_report :
    (key : ℕ) (ms : List Match) (rules : List (ℕ × List Match)) (last : ℤ) (pkt : MetaData)
    → HasOffsets pkt ms
    → fits pkt ms ≡ true
    → follows last key ≡ false
    → pkt.match_cnt ≤ 128
    → classify_rules ((key, ms) ∷ rules) last pkt
      ≡ classify_rules rules (pos key) (record_match key pkt)
unfolding classify_rules decide
turn_report key ms rules last pkt h f g c =
    let l : ltb max_rules_match pkt.match_cnt ≡ false = ground arith in
    rw (classify_rules, try-fits pkt ms h, decide, f, g, l)

abbrev Loop : List (ℕ × List Match) → ℤ → MetaData → List ℕ → Type 0
Loop rules last pkt ks =
    classify_rules rules last pkt ≡ returned (pkt.match_cnt + length ks) (record_all ks pkt)

loop_lem :
    (rules : List (ℕ × List Match)) (last : ℤ) (pkt : MetaData)
    → AllHaveOffsets pkt rules
    → pkt.match_cnt + length (kept last (hits pkt rules)) ≤ 128
    → Loop rules last pkt (kept last (hits pkt rules))
loop_lem [] last pkt h c = unfold classify_rules in ap (λ n. returned n pkt) (omega arith)
loop_lem ((key, ms) ∷ rules) last pkt h c = elim (Bool-cases (fits pkt ms)) [
  | inr f ↦
      let k : hits pkt ((key, ms) ∷ rules) ≡ hits pkt rules = rw f in
      turn_miss key ms rules last pkt h.0 f ∙ rw k (loop_lem rules last pkt h.1 (rw k at c))
  | inl f ↦ elim (Bool-cases (follows last key)) [
    | inl g ↦
        let k : kept last (hits pkt ((key, ms) ∷ rules)) ≡ kept last (hits pkt rules) = rw (f, g) in
        turn_follows key ms rules last pkt h.0 f g ∙ rw k (loop_lem rules last pkt h.1 (rw k at c))
    | inr g ↦
        let k : kept last (hits pkt ((key, ms) ∷ rules)) ≡ key ∷ kept (pos key) (hits pkt rules) =
          rw (f, g) in
        let d : pkt.match_cnt + suc (length (kept (pos key) (hits pkt rules))) ≤ 128 = rw k at c in
        let r = hits-record key pkt rules (omega arith) in
        let i =
          loop_lem rules (pos key) (record_match key pkt) (all_offsets-record key pkt rules h.1)
            (rw r (unfold record_match in omega arith)) in
        rw k (
          turn_report key ms rules last pkt h.0 f g (omega arith)
          ∙ (rw r at i)
          ∙ ap
              (λ n.
                returned n (record_all (kept (pos key) (hits pkt rules)) (record_match key pkt)))
              (unfold record_match in omega arith))
  ]
]

-- The elements of the list stand in the array from `i` on.
abbrev pub Listed : (ℕ → ℕ) → ℕ → List ℕ → Type 0
Listed a i [] = Unit {0}
Listed a i (x ∷ xs) = (a i ≡ x) × Listed a (i + 1) xs

abbrev pub any_odd : List ℕ → Bool
any_odd [] = false
any_odd (k ∷ ks) = k % 2 == 1 || any_odd ks

stays :
    (ks : List ℕ) (pkt : MetaData) (j : ℕ)
    → j < pkt.match_cnt
    → (record_all ks pkt).matches j ≡ pkt.matches j
stays [] pkt j h = refl
stays (k ∷ ks) pkt j h =
    stays ks (record_match k pkt) j (unfold record_match in omega arith)
    ∙ (unfold record_match in ground arith)

record_all-Listed :
    (ks : List ℕ) (pkt : MetaData)
    → Listed (record_all ks pkt).matches pkt.match_cnt (map (λ k. k / 2) ks)
unfolding record_match
record_all-Listed [] pkt = tt
record_all-Listed (k ∷ ks) pkt = (
  stays ks (record_match k pkt) pkt.match_cnt (omega arith) ∙ ground arith,
  record_all-Listed ks (record_match k pkt),
)

record_all-rest :
    (ks : List ℕ) (pkt : MetaData)
    → ((record_all ks pkt).match_cnt ≡ pkt.match_cnt + length ks)
      × ((record_all ks pkt).reverse ≡ (if any_odd ks then 1 else pkt.reverse))
unfolding record_match
record_all-rest [] pkt = (omega arith, refl)
record_all-rest (k ∷ ks) pkt = ground (arith, record_all-rest ks (record_match k pkt))

record_all-payload :
    (ks : List ℕ) (pkt : MetaData)
    → pkt.match_cnt + length ks ≤ 128
    → (record_all ks pkt).payload ≡ pkt.payload
record_all-payload [] pkt h = refl
record_all-payload (k ∷ ks) pkt h =
    record_all-payload ks (record_match k pkt) (unfold record_match in omega arith)
    ∙ payload-record k pkt (omega arith)

offsets-cleared :
    (pkt : MetaData) (ms : List Match)
    → HasOffsets pkt ms
    → HasOffsets (record pkt { match_cnt = 0 }) ms
offsets-cleared pkt [] h = tt
offsets-cleared pkt (m ∷ ms) (o, e, h) = (o, e, offsets-cleared pkt ms h)

all_offsets-cleared :
    (pkt : MetaData) (rules : List (ℕ × List Match))
    → AllHaveOffsets pkt rules
    → AllHaveOffsets (record pkt { match_cnt = 0 }) rules
all_offsets-cleared pkt [] h = tt
all_offsets-cleared pkt ((key, ms) ∷ rules) h =
    (offsets-cleared pkt ms h.0, all_offsets-cleared pkt rules h.1)

-- The keys that `classify` reports.
abbrev pub reported : MetaData → List (ℕ × List Match) → List ℕ
reported pkt rules = kept (negsuc 1) (hits pkt rules)

-- The keys to report are those of the rules that match, in order, without each that directly follows
-- the key reported before it. On a packet with all the headers that the rules refer to, and with at
-- most 128 keys to report, `classify` returns their number, and leaves in the packet that number, the
-- rule ids of the keys in order, and a `reverse` of 1 if one of the keys is odd, else the one before;
-- the payload stays.
pub classify-reported :
    (rules : List (ℕ × List Match)) (pkt : MetaData)
    → AllHaveOffsets pkt rules
    → length (reported pkt rules) ≤ 128
    → (out : MetaData) × (classify rules pkt ≡ returned (length (reported pkt rules)) out)
      × (out.match_cnt ≡ length (reported pkt rules))
      × Listed out.matches 0 (map (λ k. k / 2) (reported pkt rules))
      × (out.reverse ≡ (if any_odd (reported pkt rules) then 1 else pkt.reverse))
      × (out.payload ≡ pkt.payload)
unfolding classify
classify-reported rules pkt h c =
    let start : MetaData = record pkt { match_cnt = 0 } in
    let e = hits-changed pkt pkt.reverse 0 pkt.matches rules in
    let l =
      loop_lem rules (negsuc 1) start (all_offsets-cleared pkt rules h) (rw e (omega arith)) in
    let r = record_all-rest (reported pkt rules) start in
    (
      record_all (reported pkt rules) start,
      (rw e at l) ∙ ap (λ n. returned n (record_all (reported pkt rules) start)) (omega arith),
      omega (arith, r.0),
      record_all-Listed (reported pkt rules) start,
      r.1,
      record_all-payload (reported pkt rules) start (omega arith),
    )
