-- ===== src/Availability/Epoch/History.antt =====
-- Histories of the epoch store of epoch.go: any sequence of its operations.
use cipher.Prelude.{ℕ, ◌^◌, ◌<◌, ◌≡◌, ap₂, Option, some, List, [], ◌∷◌, Bytes, All, lookup}
use cipher.Prelude.Int.{ℤ, pos_part}
use cipher.Availability.Types.{Epoch, active}
use cipher.Availability.Epoch.{
  EpochStore, store_key, create_epoch, select_uncovered_chunk, start_next_epoch,
}
use cipher.Availability.Epoch.Store.{
  IsSoundStore, select-IsSoundStore, create_epoch-IsSoundStore, start_next-IsSoundStore,
}

-- The operations of the package that change the store, each with its random bytes and clock.
pub data EpochCall : Type 0 where
  create : Option Bytes → ℕ → Bytes → Bytes → ℤ → EpochCall
  select : Bytes → Bytes → EpochCall
  start_next : Option Bytes → ℕ → Bytes → Bytes → EpochCall

unfoldable pub perform : EpochCall → EpochStore → EpochStore
perform (create r now p f total) s = (create_epoch r now p f total s).0
perform (select id h) s = (select_uncovered_chunk id h s).0
perform (start_next r now p f) s = (start_next_epoch r now p f s).0

-- A total is an `int`.
abbrev pub IsIntCall : EpochCall → Type 0
IsIntCall (create r now p f total) = pos_part total < 2 ^ 63
IsIntCall (select id h) = Unit
IsIntCall (start_next r now p f) = Unit

-- Every operation keeps the store sound.
pub perform-IsSoundStore :
    (c : EpochCall) (s : EpochStore) → IsIntCall c → IsSoundStore s → IsSoundStore (perform c s)
unfolding perform
perform-IsSoundStore (create r now p f total) s fits inv =
    create_epoch-IsSoundStore r now p f total s fits inv
perform-IsSoundStore (select id h) s fits inv = select-IsSoundStore id h s inv
perform-IsSoundStore (start_next r now p f) s fits inv = start_next-IsSoundStore r now p f s inv

unfoldable pub perform_all : List EpochCall → EpochStore → EpochStore
perform_all [] s = s
perform_all (c ∷ cs) s = perform_all cs (perform c s)

abbrev pub empty_store : EpochStore
empty_store = record { epochs = []; latest = [] }

perform_all-IsSoundStore :
    (cs : List EpochCall) (s : EpochStore)
    → All IsIntCall cs
    → IsSoundStore s
    → IsSoundStore (perform_all cs s)
unfolding perform_all
perform_all-IsSoundStore [] s fits inv = inv
perform_all-IsSoundStore (c ∷ cs) s fits inv =
    perform_all-IsSoundStore cs (perform c s) fits.1 (perform-IsSoundStore c s fits.0 inv)

-- After any sequence of operations on the empty store, every epoch has counted one challenge for
-- each chunk that is no longer uncovered, and is the latest of its provider and file if it is
-- active.
pub perform_all_sound :
    (cs : List EpochCall) → All IsIntCall cs → IsSoundStore (perform_all cs empty_store)
perform_all_sound cs fits =
    perform_all-IsSoundStore cs empty_store fits (λ id e h. unfold lookup in cc)

-- After any sequence of operations on the empty store, two active epochs of one provider and file
-- are the same epoch.
active_epoch_unique :
    (cs : List EpochCall)
    → All IsIntCall cs
    → (i j : Bytes) (d e : Epoch) → lookup i (perform_all cs empty_store).epochs ≡ some d
    → lookup j (perform_all cs empty_store).epochs ≡ some e
    → d.status ≡ active
    → e.status ≡ active
    → d.provider_id ≡ e.provider_id
    → d.file_id ≡ e.file_id
    → i ≡ j
active_epoch_unique cs fits i j d e hd he ad ae p f =
    let inv = perform_all_sound cs fits in
    cc ((inv i d hd).tracked ad, (inv j e he).tracked ae, ap₂ store_key p f)
