-- ===== src/Broker/Create.antt =====
-- The topics that the broker keeps: each is made once.
use simple_commit_log.Base.{
  ◌≡◌, refl, ◌∙◌, Option, none, some, Bool, true, false, ◌==◌, not, ◌⊎◌, inl, inr, Option-cases,
  arith, if◌then◌else◌,
}
use simple_commit_log.Errors.{Result, ok, err, panic, topic_not_found, topic_already_exists}
use simple_commit_log.Exec.{continue}
use simple_commit_log.Topic.Files.{Key}
use simple_commit_log.Broker.{
  Topics, Broker, make_topic_batcher, set_topic, found_or_made, get_topic_batcher, keep_if_new,
  create_topic, in_world,
}
use simple_commit_log.Names.{lookup, put, lookup-put}

module _ {W T : Type 0} (topics : Topics W T) (name : Key) where
  -- What a call leaves in the map, where it gives out a topic.
  Keeps : Broker W T × Result T → Type 0
  Keeps o = (tb : T) → o.1 ≡ ok tb → lookup name o.0.topic_batchers ≡ some tb

  set_topic-Keeps : (o : Broker W T × Result T) → Keeps (continue o (set_topic topics name))
  unfolding Keeps
  set_topic-Keeps (s, ok t) tb h = lookup-put name t s.topic_batchers ∙ cc h
  set_topic-Keeps (s, err e) tb h = cc h
  set_topic-Keeps (s, panic) tb h = cc h

  allowed-Keeps :
      (refused : Bool) (s : Broker W T) (o : Broker W T × Result T)
      → Keeps (if refused then (s, err topic_not_found) else continue o (set_topic topics name))
  allowed-Keeps true s o = unfold Keeps in λ tb h. cc h
  allowed-Keeps false s o = set_topic-Keeps o

  found_or_made-Keeps :
      (s : Broker W T) (o : Option T)
      → lookup name s.topic_batchers ≡ o
      → Keeps (found_or_made topics name o s)
  found_or_made-Keeps s (some t) e = unfold Keeps in λ tb h. cc (e, h)
  found_or_made-Keeps s none e =
      allowed-Keeps (not s.auto_create_topics) s (make_topic_batcher topics name s)

  get_topic_batcher-Keeps : (s : Broker W T) → Keeps (get_topic_batcher topics name s)
  unfolding get_topic_batcher
  get_topic_batcher-Keeps s = found_or_made-Keeps s (lookup name s.topic_batchers) refl

  get_topic_batcher-known :
      (s : Broker W T) (tb : T)
      → lookup name s.topic_batchers ≡ some tb
      → get_topic_batcher topics name s ≡ (s, ok tb)
  unfolding get_topic_batcher
  get_topic_batcher-known s tb h = rw h refl

  -- A topic that the broker gave out is in its map, and the next call gives out the same one and
  -- changes nothing: no second topic is made for a name.
  pub get_topic_batcher-again :
      (s : Broker W T) (tb : T)
      → (get_topic_batcher topics name s).1 ≡ ok tb
      → get_topic_batcher topics name (get_topic_batcher topics name s).0
        ≡ ((get_topic_batcher topics name s).0, ok tb)
  unfolding Keeps
  get_topic_batcher-again s tb h =
      get_topic_batcher-known (get_topic_batcher topics name s).0 tb
        (get_topic_batcher-Keeps s tb h)

  -- Where the broker does not create topics by itself, a name that it does not know is not found,
  -- and nothing changes.
  pub get_topic_batcher-missing :
      (s : Broker W T)
      → s.auto_create_topics ≡ false
      → (get_topic_batcher topics name s ≡ (s, err topic_not_found))
        ⊎ ((tb : T) × (lookup name s.topic_batchers ≡ some tb)
            × (get_topic_batcher topics name s ≡ (s, ok tb)))
  unfolding get_topic_batcher
  get_topic_batcher-missing s off = elim (Option-cases (lookup name s.topic_batchers)) [
    | inl e ↦ inl (simp (e, off) refl)
    | inr (tb, e) ↦ inr (tb, e, rw e refl)
  ]

  -- What CreateTopic did, where its outcome is a success: `made` is what the factory returned.
  Creates : W × Result T → Broker W T × Result (Unit {0}) → Type 0
  Creates made o =
      o.1 ≡ ok tt
      → (tb : T) × (made.1 ≡ ok tb)
        × (topics.next_offset tb ≡ 0)
        × (lookup name o.0.topic_batchers ≡ some tb)

  checked-Creates :
      (s : Broker W T) (w : W) (tb : T) (none_yet : Bool)
      → (topics.next_offset tb == 0) ≡ none_yet
      → Creates
          (w, ok tb)
          (if not none_yet
            then (s, err topic_already_exists)
            else (record s { topic_batchers = put name tb s.topic_batchers }, ok tt))
  unfolding Creates
  checked-Creates s w tb true e h =
      (tb, refl, ground (arith, e), lookup-put name tb s.topic_batchers)
  checked-Creates s w tb false e h = cc h

  made-Creates :
      (s : Broker W T) (made : W × Result T)
      → Creates made (continue (in_world topics s made) (keep_if_new topics name))
  made-Creates s (w, ok tb) =
      checked-Creates (record s { world = w }) w tb (topics.next_offset tb == 0) refl
  made-Creates s (w, err e) = unfold Creates in λ h. cc h
  made-Creates s (w, panic) = unfold Creates in λ h. cc h

  -- Where CreateTopic succeeds, the name was not in the map, a topic was made for it which has no
  -- records, and it is in the map.
  pub create_topic_ok :
      (s : Broker W T)
      → (create_topic topics name s).1 ≡ ok tt
      → (lookup name s.topic_batchers ≡ none)
        × ((tb : T) × ((topics.make_topic name s.world).1 ≡ ok tb)
            × (topics.next_offset tb ≡ 0)
            × (lookup name (create_topic topics name s).0.topic_batchers ≡ some tb))
  unfolding create_topic make_topic_batcher Creates
  create_topic_ok s = elim (Option-cases (lookup name s.topic_batchers)) [
    | inl e ↦ rw e (λ h. (refl, made-Creates s (topics.make_topic name s.world) h))
    | inr (tb, e) ↦ rw e (λ h. cc h)
  ]

  create_topic-known :
      (s : Broker W T) (tb : T)
      → lookup name s.topic_batchers ≡ some tb
      → create_topic topics name s ≡ (s, err topic_already_exists)
  unfolding create_topic
  create_topic-known s tb e = rw e refl

  -- Then a second CreateTopic fails as documented, and changes nothing.
  pub create_topic-again :
      (s : Broker W T)
      → (create_topic topics name s).1 ≡ ok tt
      → create_topic topics name (create_topic topics name s).0
        ≡ ((create_topic topics name s).0, err topic_already_exists)
  create_topic-again s h =
      let (tb, _, _, e) = (create_topic_ok s h).1 in
      create_topic-known (create_topic topics name s).0 tb e
