-- ===== src/Modify/Worker/Running.antt =====
-- The worker handles every item that is left in a queue that was shut down, and then returns.
use e_sdk_k8s_plugin.Prelude.{none, some, List, [], ◌∷◌, String, ◌≡◌}
use e_sdk_k8s_plugin.Prelude.Result.{ok, err}
use e_sdk_k8s_plugin.Prelude.Io.{Io}
use e_sdk_k8s_plugin.Modify.Worker.{Item, key, no_text, Queue}

module _ {W E : Type 0} (queue : Queue W) (sync : String → Io W E (Unit {0})) where
  -- What may be done to an item, from the world in which it was taken to the one behind it.
  pub data Handled (w : W) : Item → W → Type 0 where
    -- It is no text, and is forgotten.
    dropped : Handled w no_text (queue.done no_text (queue.forget no_text w))
    -- It is no key of an object, and stays as it is.
    unreadable :
        (k : String) (e : String)
        → queue.split_key k ≡ err e
        → Handled w (key k) (queue.done (key k) w)
    -- Its object was synchronized once, and it is forgotten.
    synchronized :
        (k name : String) (u : W)
        → queue.split_key k ≡ ok name
        → sync name w ≡ (u, ok tt)
        → Handled w (key k) (queue.done (key k) (queue.forget (key k) u))
    -- Its object could not be synchronized, and it is to be queued again.
    failed :
        (k name : String) (u : W) (e : E)
        → queue.split_key k ≡ ok name
        → sync name w ≡ (u, err e)
        → Handled w (key k) (queue.done (key k) (queue.add_rate_limited (key k) u))

  -- The items were taken and handled one after the other, and then the shutdown was seen.
  pub data Drained : List Item → W → W → Type 0 where
    empty : {w end : W} → queue.get w ≡ (end, none) → Drained [] w end
    next :
        {items : List Item} {w taken after end : W} (item : Item)
        → queue.get w ≡ (taken, some item)
        → Handled taken item after
        → Drained items after end
        → Drained (item ∷ items) w end

  -- A queue of client-go after `ShutDown`: it gives the items that are left, and then says that it was
  -- shut down; what is added to it is dropped, also by the handlers that a synchronization sets off.
  pub record ShutDown (left : W → List Item) : Type 0 where
    pub get_last : (w : W) → left w ≡ [] → (queue.get w).1 ≡ none
    pub get_item :
        (item : Item) (items : List Item) (w : W)
        → left w ≡ item ∷ items
        → ((queue.get w).1 ≡ some item) × (left (queue.get w).0 ≡ items)
    pub done_keeps : (item : Item) (w : W) → left (queue.done item w) ≡ left w
    pub forget_keeps : (item : Item) (w : W) → left (queue.forget item w) ≡ left w
    pub add_dropped : (item : Item) (w : W) → left (queue.add_rate_limited item w) ≡ left w
    pub sync_keeps : (name : String) (w : W) → left (sync name w).0 ≡ left w
