-- ===== src/Interfaces/Mqtt/Tests.antt =====
-- MQTT commands, a link and its cache, at concrete ones.
use pai.Prelude.{
  ℕ, ◌≡◌, ◌≢◌, String, Bool, true, false, not, ◌||◌, some, none, List, [], ◌∷◌, refl, ap, lookup,
  split, split_text, lower, strip, starts_with, string_eq, if◌then◌else◌, concat, occurs, letters,
  arith, Option, inl, inr,
}
use pai.Session.Control.{Answer, returns}
use pai.Panel.Commands.Sessions.{partition}
use pai.Interfaces.Text.{get_or}
use pai.Interfaces.Mqtt.Topics.{parse, parse-below, topic_of}
use pai.Interfaces.Mqtt.Challenge.{
  Secret, per_user, issued, passed, refused, unbound, validate, validate_replay,
}
use pai.Interfaces.Mqtt.Toggle.{proceed, resolve, handle_panel_change, is_set}
use pai.Interfaces.Mqtt.ToggleLaws.{toggle_single, toggle_all_disarms}
use pai.Interfaces.Mqtt.Control.{Config, Handled, Order, handle_partition_control, identify}
use pai.Interfaces.Mqtt.Safety.{handle_partition_control_authenticated, IsAuthentic}
use pai.Interfaces.Mqtt.Link.{
  Link, connected, new, IsSound, nothing, more, registers, connects, Steps-IsSound, unregister,
  unregister_lost, on_disconnect_cb, on_connect_cb, register, start,
}
use pai.Interfaces.Mqtt.Cache.{Cache, republish, due, messages, republish_settles}

abbrev base : String
base = "paradox"

named : base ≢ ""
named e = let e : false ≡ true = ap (λ s. string_eq.same s "") e in ground (arith, e)

parse-below_example :
    parse "paradox" true (record {
      retain = false;
      topic = topic_of "paradox" "control" "zones" "hall";
      payload = " bypass ";
    })
    ≡ (if false || not true
        then none
        else some (record {
          topics = "" ∷ "control" ∷ "zones" ∷ "hall" ∷ [];
          element = some "hall";
          content = strip " bypass ";
        }))
unfolding occurs starts_with concat
parse-below_example =
    parse-below "paradox" "control" "zones" "hall" false true " bypass " named refl refl refl refl

-- the name of an element is cut where the base topic occurs in it
cut_short :
    parse "pai" true
      (record { retain = false; topic = "pai/control/zones/hall_pair"; payload = "bypass" })
    ≡ some (record {
      topics = "" ∷ "control" ∷ "zones" ∷ "hall_" ∷ [];
      element = some "hall_";
      content = "bypass";
    })
unfolding parse split split_text starts_with letters strip
cut_short = refl

-- a digest that shows its text
abbrev plainly : ℕ → String → String
plainly n s = s

abbrev users : Secret
users = per_user (("ann", "sesame") ∷ [])

abbrev sesame : String
sesame = "sesame"

validate_replay_example :
    (validate plainly 1 users
      (validate plainly 1 users (issued "a1") "b2" "arm ann a1sesame").challenge
      "c3"
      "arm ann a1sesame").verdict
    ≡ (if string_eq.same (concat "a1" sesame) (concat "b2" sesame)
        then passed "arm" (some "ann")
        else refused)
unfolding validate split strip lookup concat
validate_replay_example =
    validate_replay plainly 1 users "a1" "b2" "c3" "arm ann a1sesame" "arm" sesame (some "ann") refl
      refl

sent_again : (validate plainly 1 users (issued "b2") "c3" "arm ann a1sesame").verdict ≡ refused
unfolding validate split strip lookup concat
sent_again = refl

-- an unknown user, and the first command of all, leave the method by an exception
unknown_user : (validate plainly 1 users (issued "a1") "b2" "arm bob a1sesame").verdict ≡ unbound
unfolding validate split strip lookup
unknown_user = refl

abbrev config : Config
config = record { secret = some users; rounds = 1; aliases = []; codes = ("1234", "Ann") ∷ [] }

abbrev willing : Order → Answer
willing o = returns true

abbrev leaving : List (String × Bool)
leaving = ("arm", false) ∷ ("exit_delay", true) ∷ []

abbrev partitions : List (String × List (String × Bool))
partitions = ("Home", leaving) ∷ []

abbrev truthy : Bool → Bool
truthy b = b

abbrev no_more : List Order
no_more = []

abbrev arms : Order
arms = (partition, some "Home", "arm")

abbrev armed : Handled Order
armed =
    handle_partition_control plainly config (issued "a1") "b2" truthy partitions willing
      (some "Home") "arm ann a1sesame"

handle_partition_control_authenticated_example :
    (no_more ≡ [])
    × (command : String) × (user : Option String) × (meaning : String) × (resolve truthy
          config.codes partitions
          (some "Home")
          (get_or config.aliases command)
        ≡ proceed meaning)
    × (arms ≡ (partition, some "Home", meaning))
    × IsAuthentic plainly config
        (issued "a1")
        "b2"
        willing
        users
        "arm ann a1sesame"
        command
        user
        arms
        armed
unfolding handle_partition_control identify validate split strip lookup concat resolve starts_with
handle_partition_control_authenticated_example =
    handle_partition_control_authenticated plainly config (issued "a1") "b2" truthy partitions
      willing (some "Home") users "arm ann a1sesame" arms no_more refl refl

toggle_single_example :
    resolve truthy config.codes partitions (some "Home") (concat "code_toggle-" "1234")
    ≡ proceed (
        if is_set truthy (lookup leaving "arm") || is_set truthy (lookup leaving "exit_delay")
        then "disarm"
        else "arm")
unfolding lookup lower
toggle_single_example =
    toggle_single truthy config.codes partitions "Home" "1234" "Ann" leaving refl refl refl refl

-- "Hall" is a zone in its exit delay
toggle_all_disarms_example :
    resolve truthy config.codes
      (handle_panel_change [] "Hall" "exit_delay" true)
      (some "ALL")
      (concat "code_toggle-" "1234")
    ≡ proceed "disarm"
unfolding lookup lower
toggle_all_disarms_example =
    toggle_all_disarms truthy config.codes [] "ALL" "1234" "Ann" "Hall" "exit_delay" true refl refl
      refl (inr (inl refl)) refl

abbrev idle : Link
idle = record {
  state = new;
  last_pai_status = "unknown";
  registrars = [];
  looping = false;
  published = [];
}

abbrev registered : Link
registered = register true 7 idle

Steps-IsSound_example : IsSound (on_connect_cb true registered)
unfolding register start
Steps-IsSound_example =
    Steps-IsSound
      (more idle registered (on_connect_cb true registered)
        (more idle idle registered (nothing idle) (registers true 7 idle))
        (connects true registered refl))
      (ground arith, ground arith)

abbrev online : Link
online = record idle { state = connected; registrars = 7 ∷ []; looping = true }

unregister_lost_example :
    (m : Link) × (unregister 7 (on_disconnect_cb online) ≡ some m)
    × (m.registrars ≡ [])
    × (m.looping ≡ true)
    × ((on_connect_cb true m).state ≡ connected)
unregister_lost_example = unregister_lost online 7 refl refl

abbrev cache : Cache
cache =
    ("zone/hall", record { value = "open"; qos = 0; retain = true; last_publish = 3 })
    ∷ ("zone/door", record { value = "closed"; qos = 0; retain = true; last_publish = 9 })
    ∷ []

republish_settles_example :
    ((republish 5 10 cache).1 ≡ due 5 10 cache)
    × (messages (republish 5 10 cache).0 ≡ messages cache)
    × (due 5 10 (republish 5 10 cache).0 ≡ [])
republish_settles_example = republish_settles 5 10 cache (omega arith)
