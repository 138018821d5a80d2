-- ===== src/Sink/Watchers.antt =====
-- `_watcherMap` of server/DataSink.cpp, with what each `ev::io` holds beside it: its socket and,
-- but for the accept socket, the buffer that `data` points to.
use wall_mon.Base.{
  ℕ, ◌≡◌, refl, ◌∙◌, String, Option, none, some, List, [], ◌∷◌, ◌==◌, if◌then◌else◌, arith,
}
use wall_mon.ByteBuffer.{ByteBuffer}

pub record Watcher : Type 0 where
  pub fd : ℕ
  pub address : String
  pub buffer : Option ByteBuffer

unfoldable pub find : ℕ → List (ℕ × Watcher) → Option Watcher
find id [] = none
find id ((j, w) ∷ m) = if j == id then some w else find id m

unfoldable pub put : ℕ → Watcher → List (ℕ × Watcher) → List (ℕ × Watcher)
put id w [] = (id, w) ∷ []
put id w ((j, v) ∷ m) = if j == id then (id, w) ∷ m else (j, v) ∷ put id w m

unfoldable pub erase : ℕ → List (ℕ × Watcher) → List (ℕ × Watcher)
erase id [] = []
erase id ((j, v) ∷ m) = if j == id then erase id m else (j, v) ∷ erase id m

pub find-put :
    (id j : ℕ) (w : Watcher) (m : List (ℕ × Watcher))
    → find j (put id w m) ≡ (if id == j then some w else find j m)
unfolding find put
find-put id j w [] = refl
find-put id j w ((i, v) ∷ m) = ground (arith, find-put id j w m)

pub find-erase :
    (id j : ℕ) (m : List (ℕ × Watcher)) → find j (erase id m) ≡ (if id == j then none else find j m)
unfolding find erase
find-erase id j [] = ground arith
find-erase id j ((i, v) ∷ m) = ground (arith, find-erase id j m)

pub find-put_self : (id : ℕ) (w : Watcher) (m : List (ℕ × Watcher)) → find id (put id w m) ≡ some w
find-put_self id w m = find-put id id w m ∙ ground arith
