-- ===== src/Modify/Worker/Tests.antt =====
-- A queue that is a list of items, with the log of what was done to it.
use e_sdk_k8s_plugin.Prelude.{
  Option, none, some, List, [], ◌∷◌, ◌≡◌, refl, String, ◌==◌, if◌then◌else◌,
}
use e_sdk_k8s_plugin.Prelude.Result.{Result, ok, err}
use e_sdk_k8s_plugin.Modify.Worker.{
  Item, key, no_text, Queue, run, sync_handler, handle_item, process_next_work_item,
}

data Act : Type 0 where
  forgotten queued_again synced : String → Act
  ended : Act

abbrev World : Type 0
World = List Item × List Act

abbrev name_of : Item → String
name_of (key k) = k
name_of no_text = ""

abbrev take_item : World → World × Option Item
take_item ([], acts) = (([], ended ∷ acts), none)
take_item (item ∷ items, acts) = ((items, acts), some item)

abbrev queue : Queue World
queue = record {
  get = take_item;
  done = λ item w. w;
  forget = λ item w. (w.0, forgotten (name_of item) ∷ w.1);
  add_rate_limited = λ item w. (w.0, queued_again (name_of item) ∷ w.1);
  split_key = λ k. ok k;
}

-- The object `bad` cannot be synchronized.
abbrev sync : String → World → World × Result String (Unit {0})
sync name w = ((w.0, synced name ∷ w.1), if name == "bad" then err "failed" else ok tt)

abbrev items : List Item
items = key "a" ∷ no_text ∷ key "bad" ∷ []

-- What the run on these items leaves.
ending :
    run queue sync 4 (items, [])
    ≡ some (
      [],
      ended ∷ queued_again "bad" ∷ synced "bad" ∷ forgotten "" ∷ forgotten "a" ∷ synced "a" ∷ [],
    )
unfolding run process_next_work_item handle_item sync_handler
ending = refl
