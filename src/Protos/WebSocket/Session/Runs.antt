-- ===== src/Protos/WebSocket/Session/Runs.antt =====
-- Sessions at work, and the theorems at concrete ones.
use wave_x.Prelude.{ℕ, ◌≡◌, refl, true, false, some, List, [], ◌∷◌, ◌++◌, arith, inl, inr}
use wave_x.Protos.WebSocket.Codec.{text, encode_frame}
use wave_x.Protos.WebSocket.Text.{is_valid_utf8}
use wave_x.Protos.WebSocket.Session.{
  Connection, new_connection, server, client, Fill, arrived, broken, io_error, read, returns,
  delivered,
}
use wave_x.Protos.WebSocket.Session.Sending.{
  Act, texts, closes, takes, written, aborts, pings, act_all, queued, IsCounted, ClosesLast,
  act_all-IsCounted, queued-ClosesLast,
}
use wave_x.Protos.WebSocket.Session.Reading.{IsSound, read-IsSound}
use wave_x.Protos.WebSocket.Session.Progress.{IsDone, read-IsDone}
use wave_x.Protos.WebSocket.Session.Delivery.{Accepts, after_message, message_delivered}

abbrev hi : List ℕ
hi = 104 ∷ 105 ∷ []

abbrev acts : List Act
acts = texts 7 hi ∷ takes ∷ pings 7 [] ∷ closes 7 1000 [] ∷ written false ∷ texts 7 hi ∷ aborts ∷ []

abbrev fresh : Connection
fresh = new_connection client [] 100 1000

act_all-IsCounted_example : IsCounted (act_all acts fresh)
act_all-IsCounted_example = act_all-IsCounted acts fresh (inr refl)

queued-ClosesLast_example : ClosesLast (queued acts fresh)
queued-ClosesLast_example = queued-ClosesLast acts fresh

abbrev fill_list : List Fill
fill_list = arrived 0x81 (0x82 ∷ []) ∷ broken io_error ∷ []

abbrev no_keys : ℕ → ℕ
no_keys k = k

read-IsSound_example : IsSound 100 (read no_keys fill_list (new_connection server [] 100 1000))
read-IsSound_example = read-IsSound no_keys fill_list (new_connection server [] 100 1000)

read-IsDone_example : IsDone (read no_keys fill_list (new_connection server [] 100 1000))
read-IsDone_example = read-IsDone no_keys fill_list (new_connection server [] 100 1000)

abbrev holding : Connection
holding = new_connection server (encode_frame text hi true (some 77) ++ (0x81 ∷ [])) 100 1000

holding-Accepts : Accepts holding text hi
unfolding is_valid_utf8
holding-Accepts = record {
  still_open = refl;
  between = refl;
  no_fragments = refl;
  is_data = inl refl;
  fits = omega arith;
  valid = λ e. refl;
}

message_delivered_example :
    read no_keys [] holding ≡ returns (after_message holding text (0x81 ∷ [])) (delivered hi text)
message_delivered_example =
    message_delivered no_keys [] holding text hi (0x81 ∷ []) 77 holding-Accepts refl (omega arith)
      (omega arith)
