-- ===== src/Broker/Tests.antt =====
-- Runs of the code of internal/sebbroker/broker.go, and its theorems at concrete inputs.
use simple_commit_log.Base.{ℕ, ◌≡◌, refl, ◌⊎◌, [], ◌∷◌, none, some, false}
use simple_commit_log.Errors.{ok, err, topic_not_found, topic_already_exists}
use simple_commit_log.Slice.{reslice}
use simple_commit_log.Records.Batch.{records, records_between}
use simple_commit_log.Records.Tests.{three}
use simple_commit_log.Topic.Add.{offsets_from}
use simple_commit_log.Broker.{
  Broker, make_topic_batcher, get_topic_batcher, create_topic, broker_add_records, get_record,
}
use simple_commit_log.Names.{same_name, lookup, put}
use simple_commit_log.Broker.Example.{counters, name, empty}
use simple_commit_log.Broker.Create.{
  get_topic_batcher-again, get_topic_batcher-missing, create_topic_ok, create_topic-again,
}

program : Unit {0}
unfolding make_topic_batcher get_topic_batcher create_topic broker_add_records get_record same_name
    lookup put offsets_from records records_between reslice
program = tt

-- Two calls of AddRecords make one topic, and the offsets go on.
added_twice :
    let s = (broker_add_records counters name three empty).0 in
    (broker_add_records counters name three s).1 ≡ ok (3 ∷ 4 ∷ 5 ∷ [])
unfolding program
added_twice = refl

made_once :
    let s = (broker_add_records counters name three empty).0 in
    (broker_add_records counters name three s).0.world ≡ 1
unfolding program
made_once = refl

got : (get_topic_batcher counters name empty).1 ≡ ok 0
unfolding program
got = refl

get_topic_batcher-again_example :
    get_topic_batcher counters name (get_topic_batcher counters name empty).0
    ≡ ((get_topic_batcher counters name empty).0, ok 0)
get_topic_batcher-again_example = get_topic_batcher-again counters name empty 0 got

abbrev closed_empty : Broker ℕ ℕ
closed_empty = record { auto_create_topics = false; topic_batchers = []; world = 0 }

missing_in_closed :
    (get_topic_batcher counters name closed_empty ≡ (closed_empty, err topic_not_found))
    ⊎ ((tb : ℕ) × (lookup name closed_empty.topic_batchers ≡ some tb)
        × (get_topic_batcher counters name closed_empty ≡ (closed_empty, ok tb)))
missing_in_closed = get_topic_batcher-missing counters name closed_empty refl

created : (create_topic counters name empty).1 ≡ ok tt
unfolding program
created = refl

create_topic_ok_example :
    (lookup {T = ℕ} name [] ≡ none)
    × ((tb : ℕ) × ((counters.make_topic name 0).1 ≡ ok tb)
        × (counters.next_offset tb ≡ 0)
        × (lookup name (create_topic counters name empty).0.topic_batchers ≡ some tb))
create_topic_ok_example = create_topic_ok counters name empty created

create_topic-again_example :
    create_topic counters name (create_topic counters name empty).0
    ≡ ((create_topic counters name empty).0, err topic_already_exists)
create_topic-again_example = create_topic-again counters name empty created
