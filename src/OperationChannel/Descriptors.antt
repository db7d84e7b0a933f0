-- ===== src/OperationChannel/Descriptors.antt =====
-- The descriptors of a result (`emitResult` in agent/src/backend/SocketOperationChannel.cpp).
use libre_darwin.Base.{
  ℕ, suc, ◌≡◌, refl, ap, Option, none, some, List, [], ◌∷◌, ◌++◌, Bool, true, false, length,
  length-append, map, if◌then◌else◌, arith, ◌&&◌,
}
use libre_darwin.Frontend.SignOptions.{Document}
use libre_darwin.OperationChannel.{
  photos, batch, Photo, BatchRow, ChannelEvent, op_result_ready, photo_items, batch_rows, attach,
  photo_bytes, photo_item, row_bytes, batch_row, WireResult, attached, emit_result,
}

-- The rows with the indices from a number on.
abbrev pub numbered : {A B : Type 0} → (A → ℕ → B) → ℕ → List A → List B
numbered item_of n [] = []
numbered item_of n (a ∷ rows) = item_of a n ∷ numbered item_of (suc n) rows

-- All descriptors can be made, from a number on.
abbrev pub all_made : {A : Type 0} → (ℕ → Document → Bool) → (A → Document) → ℕ → List A → Bool
all_made made bytes_of n [] = true
all_made made bytes_of n (a ∷ rows) = made n (bytes_of a) && all_made made bytes_of (suc n) rows

append_assoc : {A : Type 0} (xs ys zs : List A) → (xs ++ ys) ++ zs ≡ xs ++ (ys ++ zs)
append_assoc [] ys zs = refl
append_assoc (x ∷ xs) ys zs = ap (λ l. x ∷ l) (append_assoc xs ys zs)

append_nil : {A : Type 0} (xs : List A) → xs ++ [] ≡ xs
append_nil [] = refl
append_nil (x ∷ xs) = ap (λ l. x ∷ l) (append_nil xs)

length-snoc : {A : Type 0} (xs : List A) (x : A) → length (xs ++ x ∷ []) ≡ suc (length xs)
length-snoc xs x = omega (arith, length-append xs (x ∷ []))

if-and :
    {A : Type 0} (a b : Bool) (x : Option A)
    → (if a then (if b then x else none) else none) ≡ (if a && b then x else none)
if-and true b x = refl
if-and false b x = refl

module _ (made : ℕ → Document → Bool) {A B : Type 0} (bytes_of : A → Document)
    (item_of : A → ℕ → B) where
  attach_lem :
      (rows : List A) (items : List B) (fds : List Document)
      → attach made bytes_of item_of rows items fds ≡ (
          if all_made made bytes_of (length fds) rows
          then some (items ++ numbered item_of (length fds) rows, fds ++ map bytes_of rows)
          else none)
  unfolding attach
  attach_lem [] items fds = rw (append_nil items, append_nil fds) refl
  attach_lem (a ∷ rows) items fds =
      rw
        (
          attach_lem rows (items ++ item_of a (length fds) ∷ []) (fds ++ bytes_of a ∷ []),
          length-snoc fds (bytes_of a),
          append_assoc items (item_of a (length fds) ∷ []),
          append_assoc fds (bytes_of a ∷ []),
        )
        (if-and (made (length fds) (bytes_of a)) _ _)

attached-if :
    {B : Type 0} (op : ℕ) (make : List B → WireResult) (b : Bool) (items : List B)
    (fds : List Document)
    → attached op make (if b then some ([] ++ items, [] ++ fds) else none)
      ≡ (if b then (true, op_result_ready op (make items) fds ∷ []) else (false, []))
attached-if op make true items fds = refl
attached-if op make false items fds = refl

module _ (made : ℕ → Document → Bool) where
  -- What is to be delivered with a descriptor for each row.
  abbrev pub delivery :
      {A B : Type 0}
      → ℕ
      → (A → Document)
      → (A → ℕ → B)
      → (List B → WireResult)
      → List A
      → Bool × List ChannelEvent
  delivery op bytes_of item_of make rows =
      if all_made made bytes_of 0 rows
      then (true, op_result_ready op (make (numbered item_of 0 rows)) (map bytes_of rows) ∷ [])
      else (false, [])

  -- Photographs, and the rows of a batch, are delivered exactly when a descriptor can be made for each:
  -- then the event names each with its place among the frame's descriptors, which are the contents in
  -- the order of the rows. When one cannot be made, nothing is sent, and the operation is told so.
  pub emit_result-delivery :
      (op : ℕ) (items : List Photo) (rows : List BatchRow)
      → (emit_result made op (photos items) ≡ delivery op photo_bytes photo_item photo_items items)
        × (emit_result made op (batch rows) ≡ delivery op row_bytes batch_row batch_rows rows)
  unfolding emit_result
  emit_result-delivery op items rows = (
    rw (attach_lem made photo_bytes photo_item items [] []) (
        attached-if op photo_items (all_made made photo_bytes 0 items) (numbered photo_item 0 items)
          (map photo_bytes items)),
    rw (attach_lem made row_bytes batch_row rows [] []) (
        attached-if op batch_rows (all_made made row_bytes 0 rows) (numbered batch_row 0 rows)
          (map row_bytes rows)),
  )
