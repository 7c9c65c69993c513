-- ===== src/Logrotate/Operations.antt =====
-- Sequences of the operations that the filesystem of logrotate_fs.rs performs on the model.
use lading.Prelude.{ℕ, List, [], ◌∷◌, Outcome, done, panicked, ◌>>=◌}
use lading.Prelude.Map.{Map, get}
use lading.Logrotate.State.{Node, State}
use lading.Logrotate.Advance.{advance_time}
use lading.Logrotate.Every.{Ensures, Ensures-bind, Ensures-test, Ensures-any, Every-get}
use lading.Logrotate.Passing.{advance_time-EveryFile}
use lading.Logrotate.Sound.{
  IsSound, IsSound-closed, AllSound, SoundAfter, open_node-AllSound, close_node-AllSound,
  read_node-AllSound,
}
use lading.Logrotate.Handles.{
  FileHandle, lookup_node, handle_is_valid, open_file, close_file, lookup, getattr, read,
}

-- An operation, with the tick at which it is made.
pub data Operation : Type 0 where
  open_at : ℕ → ℕ → Operation
  close_at : ℕ → FileHandle → Operation
  read_from : ℕ → FileHandle → ℕ → ℕ → Operation
  lookup_name : ℕ → ℕ → List ℕ → Operation
  get_attributes : ℕ → ℕ → Operation
  wait_until : ℕ → Operation

abbrev state_of : {A : Type 0} → Outcome (A × State) → Outcome State
state_of m = m >>= λ r. done r.1

module _ (order : Map Node → List ℕ) where
  unfoldable pub perform : Operation → State → Outcome State
  perform (open_at now inode) s = state_of (open_file order s now inode)
  perform (close_at now handle) s = close_file order s now handle
  perform (read_from now handle offset size) s = state_of (read order s handle offset size now)
  perform (lookup_name now parent name) s = state_of (lookup order s now parent name)
  perform (get_attributes now inode) s = state_of (getattr order s now inode)
  perform (wait_until now) s = advance_time order s now

  unfoldable pub run : List Operation → State → Outcome State
  unfolding perform
  run [] s = done s
  run (o ∷ os) s = do s' ← perform o s; run os s'

  advanced : (s : State) (now : ℕ) → AllSound s → Ensures AllSound (advance_time order s now)
  advanced s now h = advance_time-EveryFile IsSound IsSound-closed order s now h

  state_of-AllSound :
      {A : Type 0} (m : Outcome (A × State)) → Ensures SoundAfter m → Ensures AllSound (state_of m)
  state_of-AllSound (done r) h = h
  state_of-AllSound panicked h = tt

  perform-AllSound : (o : Operation) (s : State) → AllSound s → Ensures AllSound (perform o s)
  unfolding perform open_file close_file read lookup getattr
  perform-AllSound (open_at now inode) s h = state_of-AllSound _ (
      Ensures-bind AllSound SoundAfter (advance_time order s now) _ (advanced s now h) (λ s' k.
        open_node-AllSound s' now inode (get s'.nodes inode) k
          (Every-get IsSound s'.nodes inode k)))
  perform-AllSound (close_at now handle) s h =
      Ensures-bind AllSound AllSound (advance_time order s now) _ (advanced s now h) (λ s' k.
        close_node-AllSound s' now handle (get s'.nodes handle.inode) k
          (Every-get IsSound s'.nodes handle.inode k))
  perform-AllSound (read_from now handle offset size) s h = state_of-AllSound _ (
      Ensures-bind AllSound SoundAfter (advance_time order s now) _ (advanced s now h) (λ s' k.
        Ensures-test SoundAfter (handle_is_valid s' handle) _ _
          (λ _.
            read_node-AllSound s' handle.inode offset size (get s'.nodes handle.inode) now k
              (Every-get IsSound s'.nodes handle.inode k))
          (λ _. k)))
  perform-AllSound (lookup_name now parent name) s h = state_of-AllSound _ (
      Ensures-bind AllSound SoundAfter (advance_time order s now) _ (advanced s now h) (λ s' k.
        Ensures-bind (λ _. Unit {0}) SoundAfter (lookup_node s' name (get s'.nodes parent)) _
          (Ensures-any _) (λ _ _. k)))
  perform-AllSound (get_attributes now inode) s h =
      state_of-AllSound _ (
        Ensures-bind AllSound SoundAfter (advance_time order s now) _ (advanced s now h)
          (λ s' k. k))
  perform-AllSound (wait_until now) s h = advanced s now h

  -- From a state whose files are all sound, after any sequence of operations that does not panic all
  -- files are sound: the status tick is the modified or the access tick, no offset past the bytes
  -- written has been read, and the bytes written fit a machine word.
  pub run-AllSound : (os : List Operation) (s : State) → AllSound s → Ensures AllSound (run os s)
  unfolding run
  run-AllSound [] s h = h
  run-AllSound (o ∷ os) s h =
      Ensures-bind AllSound AllSound (perform o s) (λ s'. run os s') (perform-AllSound o s h)
        (λ s' k. run-AllSound os s' k)
