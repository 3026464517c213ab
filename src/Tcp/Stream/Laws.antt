-- ===== src/Tcp/Stream/Laws.antt =====
-- What the loops of lab10/src/common.c make of one message on its way over a byte stream.
use cs_os.Prelude.{
  ℕ, zero, suc, ◌+◌, ◌≤◌, ◌<◌, ◌≡◌, sym, ◌∙◌, ◌≢◌, ◌⊎◌, inl, inr, refl, ap, Option, none, some,
  List, [], ◌∷◌, ◌++◌, arith, length, take, drop, length-append, length-take, length-drop, pos,
  minus_one, ℤ, ltb, Bool-cases, false,
}
use cs_os.Chat.Message.{Message, sizeof_message}
use cs_os.Tcp.Stream.{SendAnswer, Sending, send_loop, send_message_protocol}

-- `send` never takes more than it is given.
abbrev pub SendFits : ℕ → List SendAnswer → Type 0
SendFits sent [] = Unit
SendFits sent (SendAnswer.took n ∷ answers) =
    (sent < sizeof_message → sent + n ≤ sizeof_message) × SendFits (sent + n) answers
SendFits sent (SendAnswer.interrupted ∷ answers) = SendFits sent answers
SendFits sent (SendAnswer.failed ∷ answers) = SendFits sent answers

-- A call of `send` that has put the whole message into the stream, or a part of it only.
abbrev pub IsWhole : List ℕ → Sending → Type 0
IsWhole buffer s = (s.result ≡ some (pos sizeof_message)) × (s.wire ≡ buffer)

abbrev pub IsPart : List ℕ → Sending → Type 0
IsPart buffer s =
    (s.result ≢ some (pos sizeof_message))
    × (length s.wire < length buffer)
    × (s.wire ≡ take (length s.wire) buffer)

suc_add : (m n : ℕ) → suc m + n ≡ suc (m + n)
suc_add m n = omega arith

module _ {ℓ} {A : Type ℓ} where
  drop-nil : (k : ℕ) → drop {A = A} k [] ≡ []
  drop-nil zero = refl
  drop-nil (suc k) = refl

  take-nil : (k : ℕ) → take {A = A} k [] ≡ []
  take-nil zero = refl
  take-nil (suc k) = refl

  drop-drop : (m n : ℕ) (xs : List A) → drop n (drop m xs) ≡ drop (m + n) xs
  drop-drop zero n xs = ap (λ k. drop k xs) (omega arith)
  drop-drop (suc m) n [] = drop-nil n ∙ sym (drop-nil (suc m + n))
  drop-drop (suc m) n (x ∷ xs) = drop-drop m n xs ∙ ap (λ k. drop k (x ∷ xs)) (sym (suc_add m n))

  take-append-drop : (n : ℕ) (xs : List A) → take n xs ++ drop n xs ≡ xs
  take-append-drop zero xs = refl
  take-append-drop (suc n) [] = refl
  take-append-drop (suc n) (x ∷ xs) = ap (◌∷◌ x) (take-append-drop n xs)

  take_add : (m n : ℕ) (xs : List A) → take (m + n) xs ≡ take m xs ++ take n (drop m xs)
  take_add zero n xs = ap (λ k. take k xs) (omega arith)
  take_add (suc m) n [] = take-nil (suc m + n) ∙ sym (take-nil n)
  take_add (suc m) n (x ∷ xs) =
      ap (λ k. take k (x ∷ xs)) (suc_add m n) ∙ ap (◌∷◌ x) (take_add m n xs)

-- What is put into the stream first, and the rest of it.
IsWhole-more :
    (n : ℕ) (left : List ℕ) (s : Sending)
    → IsWhole (drop n left) s
    → IsWhole left (record s { wire = take n left ++ s.wire })
IsWhole-more n left s (r, w) = (r, ap (◌++◌ (take n left)) w ∙ take-append-drop n left)

IsPart-more :
    (n : ℕ) (left : List ℕ) (s : Sending)
    → n ≤ length left
    → IsPart (drop n left) s
    → IsPart left (record s { wire = take n left ++ s.wire })
IsPart-more n left s fits (r, short, w) = (
  r,
  omega (arith, length-append (take n left) s.wire, length-take n left, length-drop n left, short),
  ap (◌++◌ (take n left)) w
      ∙ sym (take_add n (length s.wire) left)
      ∙ ap (λ k. take k left)
          (omega (arith, length-append (take n left) s.wire, length-take n left)),
)

IsWhole-end :
    (sent : ℕ) (left : List ℕ)
    → sent + length left ≡ sizeof_message
    → ltb sent sizeof_message ≡ false
    → IsWhole left (record { result = some (pos sent); wire = [] })
IsWhole-end sent [] size full = (ap (λ n. some (pos n)) (omega arith), refl)
IsWhole-end sent (x ∷ left) size full = absurd (ground arith)

IsPart-nothing :
    (result : Option ℤ) (left : List ℕ)
    → result ≢ some (pos sizeof_message)
    → 0 < length left
    → IsPart left (record { result = result; wire = [] })
IsPart-nothing result left r more = (r, more, refl)

send_loop-outcome :
    (buffer : List ℕ) (sent : ℕ) (answers : List SendAnswer) (left : List ℕ)
    → left ≡ drop sent buffer
    → sent + length left ≡ sizeof_message
    → SendFits sent answers
    → IsWhole left (send_loop buffer sent answers) ⊎ IsPart left (send_loop buffer sent answers)
unfolding send_loop
send_loop-outcome buffer sent [] left e size fits = elim (Bool-cases (ltb sent sizeof_message)) [
  | inl more ↦ rw (more, send_loop) (inr (IsPart-nothing none left (λ h. cc) (ground arith)))
  | inr full ↦ rw (full, send_loop) (inl (IsWhole-end sent left size full))
]
send_loop-outcome buffer sent (SendAnswer.failed ∷ answers) left e size fits =
    elim (Bool-cases (ltb sent sizeof_message)) [
      | inl more ↦
          rw (more, send_loop) (inr (IsPart-nothing (some minus_one) left (λ h. cc) (ground arith)))
      | inr full ↦ rw (full, send_loop) (inl (IsWhole-end sent left size full))
    ]
send_loop-outcome buffer sent (SendAnswer.interrupted ∷ answers) left e size fits =
    elim (Bool-cases (ltb sent sizeof_message)) [
      | inl more ↦ rw (more, send_loop) (send_loop-outcome buffer sent answers left e size fits)
      | inr full ↦ rw (full, send_loop) (inl (IsWhole-end sent left size full))
    ]
send_loop-outcome buffer sent (SendAnswer.took zero ∷ answers) left e size fits =
    elim (Bool-cases (ltb sent sizeof_message)) [
      | inl more ↦
          rw (more, send_loop)
            (inr (IsPart-nothing (some (pos 0)) left (λ h. ground arith) (ground arith)))
      | inr full ↦ rw (full, send_loop) (inl (IsWhole-end sent left size full))
    ]
send_loop-outcome buffer sent (SendAnswer.took (suc n) ∷ answers) left e size fits =
    elim (Bool-cases (ltb sent sizeof_message)) [
      | inl more ↦
          rw (more, send_loop, sym e)
            (let room = fits.0 (ground arith) in
              elim (send_loop-outcome buffer (sent + suc n) answers (drop (suc n) left)
                (ap (drop (suc n)) e ∙ drop-drop sent (suc n) buffer)
                (omega (arith, length-drop (suc n) left, size, room)) fits.1) [
                  | inl whole ↦ inl (IsWhole-more (suc n) left _ whole)
                  | inr part ↦ inr (IsPart-more (suc n) left _ (omega (arith, size, room)) part)
                ])
      | inr full ↦ rw (full, send_loop) (inl (IsWhole-end sent left size full))
    ]

-- Where no call of `send` takes more than it is given, `send_message_protocol` has returned
-- `sizeof(Message)` with exactly the bytes of the message put into the stream, or it has returned 0
-- or -1 or still waits with a part from their front, not all of them.
pub send_message_protocol-outcome :
    (to_bytes : Message → List ℕ) (socketfd : ℕ) (m : Message) (answers : List SendAnswer)
    → length (to_bytes m) ≡ sizeof_message
    → SendFits 0 answers
    → IsWhole (to_bytes m) (send_message_protocol to_bytes (some socketfd) m answers)
      ⊎ IsPart (to_bytes m) (send_message_protocol to_bytes (some socketfd) m answers)
unfolding send_message_protocol
send_message_protocol-outcome to_bytes socketfd m answers size fits =
    send_loop-outcome (to_bytes m) 0 answers (to_bytes m) refl (omega (arith, size)) fits

-- The answers that let the loop get on.
abbrev pub progress : List SendAnswer → ℕ
progress [] = 0
progress (SendAnswer.interrupted ∷ answers) = progress answers
progress (_ ∷ answers) = progress answers + 1

send_loop-returns :
    (buffer : List ℕ) (sent : ℕ) (answers : List SendAnswer)
    → sizeof_message ≤ sent + progress answers
    → (send_loop buffer sent answers).result ≢ none
unfolding send_loop
send_loop-returns buffer sent [] enough e = ground arith
send_loop-returns buffer sent (SendAnswer.failed ∷ answers) enough e = ground arith
send_loop-returns buffer sent (SendAnswer.interrupted ∷ answers) enough e =
    ground (arith, send_loop-returns buffer sent answers enough)
send_loop-returns buffer sent (SendAnswer.took zero ∷ answers) enough e = ground arith
send_loop-returns buffer sent (SendAnswer.took (suc n) ∷ answers) enough e =
    ground (arith, send_loop-returns buffer (sent + suc n) answers (omega (arith, enough)))

-- `send_message_protocol` on a descriptor returns after at most `sizeof(Message)` answers that are
-- not interruptions.
pub send_message_protocol-returns :
    (to_bytes : Message → List ℕ) (socketfd : ℕ) (m : Message) (answers : List SendAnswer)
    → sizeof_message ≤ progress answers
    → (send_message_protocol to_bytes (some socketfd) m answers).result ≢ none
unfolding send_message_protocol
send_message_protocol-returns to_bytes socketfd m answers enough =
    send_loop-returns (to_bytes m) 0 answers (omega (arith, enough))
