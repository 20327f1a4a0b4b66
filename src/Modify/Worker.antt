-- ===== src/Modify/Worker.antt =====
-- pkg/modify/object_worker.go: the worker that takes keys from a queue and synchronizes their objects.
-- The rate limited queue and the splitting of a key are client-go's and parameters of the model.
pub mod Running
mod Tests
use e_sdk_k8s_plugin.Prelude.{
  ℕ, zero, suc, Bool, true, false, Option, none, some, String, if◌then◌else◌,
}
use e_sdk_k8s_plugin.Prelude.Result.{Result, ok, err}
use e_sdk_k8s_plugin.Prelude.Io.{Io, ◌>>=◌, ◌>>◌, return, fail, attempt}

-- What the queue holds: a key, or an object that is no text.
pub data Item : Type 0 where
  key : String → Item
  no_text : Item

pub record Queue (W : Type 0) : Type 0 where
  -- `none` when the queue was shut down.
  pub get : W → W × Option Item
  pub done : Item → W → W
  pub forget : Item → W → W
  pub add_rate_limited : Item → W → W
  -- The name in a key `namespace/name`; an error for any other text.
  pub split_key : String → Result String String

module _ {W E : Type 0} (queue : Queue W) (sync : String → Io W E (Unit {0})) where
  -- The error is only logged.
  unfoldable pub sync_handler : Item → W → W
  sync_handler no_text w = queue.forget no_text w
  sync_handler (key obj_key) w = elim (queue.split_key obj_key) [
    | err _ ↦ w
    | ok name ↦
        let r = sync name w in
        elim r.1 [
          | err _ ↦ queue.add_rate_limited (key obj_key) r.0
          | ok _ ↦ queue.forget (key obj_key) r.0
        ]
  ]

  -- The item is marked as done after it was handled.
  unfoldable pub handle_item : Item → W → W
  handle_item item w = queue.done item (sync_handler item w)

  -- Whether the worker goes on.
  unfoldable pub process_next_work_item : W → W × Bool
  process_next_work_item w =
      let r = queue.get w in
      elim r.1 [ none ↦ (r.0, false) | some item ↦ (handle_item item r.0, true) ]

  -- `Run`, with at most as many rounds as there is fuel; `none` when the fuel is used up.
  pub run : ℕ → W → Option W
  run zero w = none
  run (suc fuel) w =
      let r = process_next_work_item w in let next = run fuel r.0 in if r.1 then next else some r.0
