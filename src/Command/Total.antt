-- ===== src/Command/Total.antt =====
-- A text is read as a command, or an error is returned.
use check_protocols.Prelude.{List, [], ◌∷◌}
use check_protocols.ArgumentParser.{parse_arguments}
use check_protocols.ArgumentParser.Total.{parse_arguments-Ends}
use check_protocols.Command.{from_words, new}
use check_protocols.Prelude.Text.{Bytes}
use check_protocols.Result.{Ends, Ends-bind}

from_words-Ends : (line : Bytes) (words : List Bytes) → Ends (λ c. Unit) (from_words line words)
unfolding from_words
from_words-Ends line [] = tt
from_words-Ends line (executable ∷ arguments) = tt

pub new-Ends : (text : Bytes) → Ends (λ c. Unit) (new text)
unfolding new
new-Ends text =
    Ends-bind (λ ws. Unit) (λ c. Unit) (parse_arguments text) _ (parse_arguments-Ends text)
      (λ ws _. from_words-Ends text ws)
