-- ===== src/Tests/Ipc.antt =====
-- A server that never fails, and the calls of a robot and a panel on it.
use scalp_tn_aaa.Base.{
  ℕ, zero, suc, ◌+◌, ◌≤◌, ◌<◌, ◌≡◌, refl, true, false, Option, none, some, List, [], ◌∷◌, ◌++◌,
  arith, if◌then◌else◌, ltb, length,
}
use scalp_tn_aaa.Base.Text.{Text, codes, text_eq, text_eq_iff, upper, strip}
use scalp_tn_aaa.Float.Values.{find, put}
use scalp_tn_aaa.Ipc.{
  Redis, Codec, Client, World, returned, CommandDict, Pending, flag, payload, commands_key, request,
  get_client, reconnect,
}
use scalp_tn_aaa.Ipc.Calls.{read_commands, send_command, clear_command, engine_key_of, without_key}
use scalp_tn_aaa.Ipc.Kept.{KeepsKeys}
use scalp_tn_aaa.Ipc.Claims.{claim, send, count_wins}
use scalp_tn_aaa.Ipc.Once.{claims_once}
use scalp_tn_aaa.Ipc.Queue.{Stores, RoundTrips, Pends, parse-dumps}
use scalp_tn_aaa.Ipc.Commands.{sent_command_is_read, cleared_command_is_gone}

-- The entries of the server, the newest first, each with its value and the time it expires.
abbrev Entries : Type 0
Entries = List (Text × Text × ℕ)

unfoldable expiry : Text → Entries → ℕ
expiry k [] = 0
expiry k ((j, v, u) ∷ s) = if text_eq k j then u else expiry k s

unfoldable value_at : ℕ → Text → Entries → Option Text
value_at t k [] = none
value_at t k ((j, v, u) ∷ s) =
    if text_eq k j then (if ltb t u then some v else none) else value_at t k s

abbrev memory : Redis Entries
memory = record {
  get = λ t k s. returned (value_at t k s) s;
  set = λ t k v ttl s. returned tt ((k, v, t + ttl) ∷ s);
  set_nx = λ t k v ttl s.
      if ltb t (expiry k s) then returned false s else returned true ((k, v, t + ttl) ∷ s);
  ping = λ t s. returned tt s;
  connect = λ t s. returned tt s;
}

abbrev Held : Text → ℕ → Entries → Type 0
Held k u s = u ≤ expiry k s

memory-KeepsKeys : KeepsKeys memory Held
unfolding expiry
memory-KeepsKeys = record {
  earlier = λ k u v s le h. omega arith;
  nx_sets = λ t k v ttl s s' e. ground (arith, text_eq_iff k k);
  nx_refuses = λ t u k v ttl s s' lt h e. ground arith;
  nx_keeps = λ t u k j v ttl s h. ground (arith, text_eq_iff k j);
  set_keeps = λ t u k j v ttl s apart h. ground (arith, text_eq_iff k j);
  get_keeps = λ t u k j s h. h;
  ping_keeps = λ t u k s h. h;
  connect_keeps = λ t u k s h. h;
}

abbrev ReadsAs : Text → Option Text → ℕ → Entries → Type 0
ReadsAs k v u s = (t : ℕ) → t < u → value_at t k s ≡ v

memory-Stores : Stores memory ReadsAs
unfolding value_at
memory-Stores = record {
  set_reads = λ t k v ttl s s' e. λ t' lt. ground (arith, text_eq_iff k k);
  get_reads = λ t u k v r s s' lt h e. ground (arith, h t lt);
  get_keeps = λ t u k v s h. h;
  ping_keeps = λ t u k v s h. h;
  connect_keeps = λ t u k v s h. h;
}

-- A text with its length before it, and the dicts of texts and of commands with theirs.
unfoldable split : ℕ → Text → Text × Text
split zero s = ([], s)
split (suc n) [] = ([], [])
split (suc n) (c ∷ s) = let rest = split n s in (c ∷ rest.0, rest.1)

split-append : (t s : Text) → split (length t) (t ++ s) ≡ (t, s)
unfolding split
split-append [] s = refl
split-append (c ∷ t) s = rw (split-append t s)

abbrev dump_text : Text → Text → Text
dump_text t s = length t ∷ (t ++ s)

unfoldable load_text : Text → Text × Text
load_text [] = ([], [])
load_text (n ∷ s) = split n s

unfoldable dump_pairs : List (Text × Text) → Text → Text
dump_pairs [] s = s
dump_pairs ((k, v) ∷ d) s = dump_text k (dump_text v (dump_pairs d s))

unfoldable load_pairs : ℕ → Text → List (Text × Text) × Text
load_pairs zero s = ([], s)
load_pairs (suc n) s =
    let k = load_text s in
    let v = load_text k.1 in let rest = load_pairs n v.1 in ((k.0, v.0) ∷ rest.0, rest.1)

load-dump_pairs :
    (d : List (Text × Text)) (s : Text) → load_pairs (length d) (dump_pairs d s) ≡ (d, s)
unfolding load_pairs dump_pairs load_text
load-dump_pairs [] s = refl
load-dump_pairs ((k, v) ∷ d) s = rw (
  split-append k (dump_text v (dump_pairs d s)),
  split-append v (dump_pairs d s),
  load-dump_pairs d s,
)

unfoldable dump_pending : Pending → Text → Text
dump_pending flag s = 0 ∷ s
dump_pending (payload d) s = 1 ∷ length d ∷ dump_pairs d s

unfoldable load_payload : Text → Pending × Text
load_payload [] = (flag, [])
load_payload (n ∷ s) = let d = load_pairs n s in (payload d.0, d.1)

unfoldable load_pending : Text → Pending × Text
load_pending [] = (flag, [])
load_pending (zero ∷ s) = (flag, s)
load_pending (suc n ∷ s) = load_payload s

load-dump_pending : (p : Pending) (s : Text) → load_pending (dump_pending p s) ≡ (p, s)
unfolding load_pending dump_pending load_payload
load-dump_pending flag s = refl
load-dump_pending (payload d) s = rw (load-dump_pairs d s)

unfoldable dump_commands : CommandDict → Text
dump_commands [] = []
dump_commands ((k, p) ∷ d) = dump_text k (dump_pending p (dump_commands d))

unfoldable load_commands : ℕ → Text → CommandDict
load_commands zero s = []
load_commands (suc n) s =
    let k = load_text s in let p = load_pending k.1 in (k.0, p.0) ∷ load_commands n p.1

load-dump_commands : (d : CommandDict) → load_commands (length d) (dump_commands d) ≡ d
unfolding load_commands dump_commands load_text
load-dump_commands [] = refl
load-dump_commands ((k, p) ∷ d) = rw (
  split-append k (dump_pending p (dump_commands d)),
  load-dump_pending p (dump_commands d),
  load-dump_commands d,
)

unfoldable load_dict : Text → Option CommandDict
load_dict [] = none
load_dict (n ∷ s) = some (load_commands n s)

unfoldable load_data : Text → Option (List (Text × Text))
load_data [] = none
load_data (n ∷ s) = some (load_pairs n s).0

abbrev plain : Codec
plain = record {
  loads_data = load_data;
  dumps_data = λ d. length d ∷ dump_pairs d [];
  loads = load_dict;
  dumps = λ d. length d ∷ dump_commands d;
  digest = λ id. id;
  outcome = λ status position. status;
}

plain-RoundTrips : RoundTrips plain
unfolding load_dict
plain-RoundTrips = record { loads-dumps = λ d. rw (load-dump_commands d); dumps_text = λ d. refl }

abbrev fresh : Client
fresh = record { connected = false; last_failure = 0; last_ping = 0 }

-- Two robots claim one signal, and the panel sends a command in between.
claims_once_example :
    count_wins memory plain true
      (codes "a")
      ((10, fresh, claim (codes "a"))
        ∷ (11, fresh, send (codes "pause") none)
        ∷ (12, fresh, claim (codes "a"))
        ∷ [])
      []
    ≤ 1
claims_once_example =
    claims_once memory plain true memory-KeepsKeys (codes "a") 10
      ((10, fresh, claim (codes "a"))
        ∷ (11, fresh, send (codes "pause") none)
        ∷ (12, fresh, claim (codes "a"))
        ∷ [])
      []
      ((omega arith, omega arith), ((omega arith, omega arith), ((omega arith, omega arith), tt)))

-- A close of all positions is pending when the panel asks for a pause.
abbrev pending_before : CommandDict
pending_before = (codes "close_all", payload ((codes "by", codes "7") ∷ [])) ∷ []

abbrev panel : World Entries
panel = record {
  client = fresh;
  server = (commands_key, length pending_before ∷ dump_commands pending_before, 310) ∷ [];
}

panel-Pends : Pends memory plain true memory-Stores plain-RoundTrips pending_before 310 panel.server
unfolding value_at
panel-Pends = (
  some (length pending_before ∷ dump_commands pending_before),
  (λ t lt. ground (arith, text_eq_iff commands_key commands_key)),
  parse-dumps memory plain true memory-Stores plain-RoundTrips pending_before,
)

abbrev after_send : World Entries
after_send = record {
  client = fresh;
  server = (send_command memory plain true 20 (codes " pause") none panel).1.server;
}

abbrev both_pending : CommandDict
both_pending = pending_before ++ (codes "pause", flag) ∷ []

send_works : (send_command memory plain true 20 (codes " pause") none panel).0 ≡ true
unfolding send_command request get_client reconnect value_at put find text_eq engine_key_of
    load_dict load_commands load_text split load_pending load_payload load_pairs dump_commands
    dump_pending dump_pairs
send_works = refl

read_works : (read_commands memory plain true 25 after_send).0 ≡ some both_pending
unfolding read_commands send_command upper strip request get_client reconnect value_at put find
    text_eq engine_key_of load_dict load_commands load_text split load_pending load_payload
    load_pairs dump_commands dump_pending dump_pairs
read_works = refl

sent_command_is_read_example :
    find (codes "close_all") both_pending ≡ some (payload ((codes "by", codes "7") ∷ []))
unfolding text_eq engine_key_of find upper strip
sent_command_is_read_example =
    sent_command_is_read memory plain true memory-Stores plain-RoundTrips 20 25 310 (codes " pause")
      none pending_before both_pending panel fresh (omega arith) (omega arith) panel-Pends
      send_works read_works (codes "close_all")

abbrev after_clear : World Entries
after_clear = record {
  client = fresh;
  server = (clear_command memory plain true 20 (codes "close_all") panel).1.server;
}

clear_works : (clear_command memory plain true 20 (codes "close_all") panel).0 ≡ true
unfolding clear_command request get_client reconnect value_at find text_eq without_key load_dict
    load_commands load_text split load_pending load_payload load_pairs dump_commands dump_pending
    dump_pairs
clear_works = refl

read_none : (read_commands memory plain true 25 after_clear).0 ≡ some []
unfolding read_commands clear_command request get_client reconnect value_at find text_eq without_key
    load_dict load_commands load_text split load_pending load_payload load_pairs dump_commands
    dump_pending dump_pairs
read_none = refl

cleared_command_is_gone_example : find {V = Pending} (codes "close_all") [] ≡ none
unfolding text_eq find
cleared_command_is_gone_example =
    cleared_command_is_gone memory plain true memory-Stores plain-RoundTrips 20 25 310
      (codes "close_all") pending_before [] panel fresh (omega arith) (omega arith) (omega arith)
      panel-Pends clear_works read_none (codes "close_all")
