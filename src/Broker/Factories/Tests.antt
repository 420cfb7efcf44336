-- ===== src/Broker/Factories/Tests.antt =====
-- The batchers that internal/sebbroker/factories.go makes, on a topic that keeps its files in a list.
use simple_commit_log.Base.{◌+◌, ◌<◌, ◌^◌, ◌≡◌, refl, List, [], ◌∷◌, true, arith}
use simple_commit_log.Errors.{ok}
use simple_commit_log.Helpy.Example.{go_slicey}
use simple_commit_log.Slice.{of_list, reslice, append, fill}
use simple_commit_log.Records.Batch.{Batch, batch_len, new_batch}
use simple_commit_log.Records.Bytes.{le_bytes, put_u32s}
use simple_commit_log.Records.File.{header_size, encode_header, indexes_from, header_of, write}
use simple_commit_log.OffsetCond.{broadcast, broadcast_loop}
use simple_commit_log.Topic.Add.{
  add_records, store_batch, cache_batch, write_batch, write_plain, offsets_from, announce,
}
use simple_commit_log.Topic.Paths.{decimal, padded, record_batch_key}
use simple_commit_log.Topic.Example.{config, list_files, topic}
use simple_commit_log.Batcher.{
  AddResponse, Building, collect, merged, persist_batch, null_add_records,
}
use simple_commit_log.Broker.Factories.{
  persist_to_topic, null_batcher_add, persist_batch-add_records, AnswersFrom,
}

writing : Unit {0}
unfolding add_records store_batch cache_batch write_batch write_plain offsets_from announce
    broadcast broadcast_loop decimal padded record_batch_key write encode_header header_of
    header_size indexes_from put_u32s le_bytes merged collect append fill new_batch reslice
writing = tt

abbrev three : Batch
three = record { sizes = of_list (1 ∷ 0 ∷ 2 ∷ []); records_data = of_list (10 ∷ 11 ∷ 12 ∷ []) }

abbrev one : Batch
one = record { sizes = of_list (1 ∷ []); records_data = of_list (20 ∷ []) }

abbrev two_callers : Building
two_callers = record {
  blocked_callers =
      record { batch = three; response = 0 } ∷ record { batch = one; response = 1 } ∷ [];
  batch_bytes = 4;
  batch_records = 4;
  cancelled = true;
}

-- The topic's next offset is 5.
null_offsets :
    (null_batcher_add go_slicey (config list_files list_files) 7 8 three topic).1
    ≡ ok (of_list (5 ∷ 6 ∷ 7 ∷ []))
unfolding writing null_batcher_add null_add_records persist_to_topic
null_offsets = refl

added :
    (add_records go_slicey (config list_files list_files) 7 8 (merged two_callers) topic).1
    ≡ ok (5 ∷ 6 ∷ 7 ∷ 8 ∷ [])
unfolding writing
added = refl

merged_fits : topic.next_offset + batch_len (merged two_callers) < 2 ^ 64
unfolding writing
merged_fits = omega arith

persist_batch-add_records_example :
    (rs : List AddResponse) × (persist_batch
        (persist_to_topic go_slicey (config list_files list_files) 7 8)
        two_callers
        topic
      ≡ (
        (add_records go_slicey (config list_files list_files) 7 8 (merged two_callers) topic).0,
        ok rs,
      ))
    × AnswersFrom 5 two_callers.blocked_callers rs
persist_batch-add_records_example =
    persist_batch-add_records go_slicey (config list_files list_files) 7 8 two_callers topic
      (5 ∷ 6 ∷ 7 ∷ 8 ∷ []) (omega arith, (omega arith, tt)) merged_fits added
