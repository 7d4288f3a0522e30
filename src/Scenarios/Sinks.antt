-- ===== src/Scenarios/Sinks.antt =====
-- Logs, events and image factories.
use talemu.Prelude.{
  has_prefix, some, none, Text, codes, text_eq, true, false, ◌≡◌, refl, inl, List, [], ◌∷◌, Option,
}
use talemu.Logging.{Net, LogSender, new_log_sender, configure, send, close}
use talemu.Logging.Binding.{IsSound, open_sockets, send-IsSound, close-IsSound}
use talemu.Events.{
  Update, updated, alone, Versions, version_of, set_version, Sink, is_published, generate_events,
  Attempt, run_with_retries,
}
use talemu.Events.Address.{
  Step, changed, idle, siderolink_address, move_sink, round, watch, IsOn, Follows, watch-IsOn,
}
use talemu.Events.Versions.{
  IsOrdered, taking, ascends, generate_events-IsOrdered, generate_events_complete,
  generate_events-sent_again, updates,
}
use talemu.Events.Backoff.{is_backoff, run_with_retries-is_backoff}
use talemu.Factory.{Web}

-- A network that lets everything through.
abbrev open_net : Net
open_net = record { accepts = λ _ _ _. true; takes = λ _ _ _. true }

abbrev ready_sender : LogSender
ready_sender = configure (codes "siderolink") (codes "fd00::1") (new_log_sender (codes "tcp"))

ready_sender-IsSound : IsSound ready_sender
unfolding configure new_log_sender open_sockets
ready_sender-IsSound = inl (refl, refl)

send-IsSound_example : IsSound (send open_net (some (codes "{}")) true ready_sender).1
send-IsSound_example =
    (send-IsSound open_net (some (codes "{}")) true ready_sender ready_sender-IsSound).0

close-IsSound_example : IsSound (close true ready_sender)
close-IsSound_example =
    (close-IsSound ready_sender (codes "siderolink") (codes "fd00::2") true ready_sender-IsSound).1

abbrev service : Text
service = codes "Services.v1alpha1.talos.dev"

abbrev apid : Update
apid = record { kind = service; id = codes "apid"; version = 5; payload = codes "Running" }

abbrev etcd : Update
etcd = record { kind = service; id = codes "etcd"; version = 3; payload = codes "Running" }

abbrev new_sink : Sink
new_sink = record { versions = none; published = [] }

generate_events-IsOrdered_example :
    IsOrdered (generate_events taking (updated apid alone ∷ updated etcd alone ∷ []) new_sink).1
generate_events-IsOrdered_example =
    generate_events-IsOrdered taking (updated apid alone ∷ updated etcd alone ∷ []) new_sink
      ((refl, refl), ((refl, refl), tt)) (inl (refl, refl))

abbrev at_two : Versions
at_two = (service, 2) ∷ []

recorded_two : version_of at_two service ≡ some 2
unfolding version_of text_eq
recorded_two = refl

ascending : ascends service 2 (etcd ∷ apid ∷ []) ≡ true
unfolding ascends text_eq
ascending = refl

generate_events_complete_example :
    (generate_events taking
      (updates (etcd ∷ apid ∷ []))
      (record { versions = some at_two; published = [] })).0
    ≡ true
generate_events_complete_example =
    (generate_events_complete (etcd ∷ apid ∷ []) service 2 at_two [] recorded_two ascending).0

behind_two : is_published apid at_two ≡ false
unfolding is_published version_of text_eq
behind_two = refl

behind_three : is_published apid ((service, 3) ∷ []) ≡ false
unfolding is_published version_of text_eq
behind_three = refl

generate_events-sent_again_example :
    generate_events taking
      (updated apid (record { conflicts = ((service, 3) ∷ []) ∷ []; stored = true }) ∷ [])
      (record { versions = some at_two; published = [] })
    ≡ (
      true,
      record {
        versions = some (set_version service 5 ((service, 3) ∷ []));
        published = apid ∷ apid ∷ [];
      },
    )
generate_events-sent_again_example =
    generate_events-sent_again apid (((service, 3) ∷ []) ∷ []) at_two []
      (behind_two, (behind_three, tt))

abbrev moved : List Step
moved =
    changed (some (record { link_name = codes "eth0"; address = codes "10.0.0.2" } ∷ [])) true
    ∷ changed (some (record { link_name = codes "siderolink0"; address = codes "fd00::2" } ∷ []))
        true
    ∷ []

moved-goes_on : (watch (codes "siderolink") moved idle).0 ≡ true
unfolding watch round siderolink_address move_sink idle has_prefix
moved-goes_on = refl

idle-IsOn : IsOn none idle
unfolding idle
idle-IsOn = (refl, inl (refl, refl))

watch-IsOn_example :
    (b : Option Text) × Follows (codes "siderolink") moved none b
    × IsOn b (watch (codes "siderolink") moved idle).1
watch-IsOn_example = (watch-IsOn (codes "siderolink") moved none idle idle-IsOn).0 moved-goes_on

abbrev two_failures : List Attempt
two_failures =
    record { failed = true; ended = false; drawn = 9 }
    ∷ record { failed = true; ended = false; drawn = 4 }
    ∷ []

run_with_retries-is_backoff_example : is_backoff 1 (run_with_retries two_failures) ≡ true
run_with_retries-is_backoff_example = run_with_retries-is_backoff two_failures

abbrev enterprise_web : Web
enterprise_web earlier url = some (codes "Image Factory Enterprise")

abbrev factory_url : Text
factory_url = codes "https://factory.example/"

abbrev host_of : Text → Option Text
host_of url = some (codes "factory.example")
