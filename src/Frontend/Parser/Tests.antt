-- ===== src/Frontend/Parser/Tests.antt =====
-- The parser of src/frontend/Parser.cpp on a concrete source.
use ocelotl_tensor.Base.{ℕ, Option, some, Text, bytes_of, take_while}
use ocelotl_tensor.Frontend.Token.{Token}
use ocelotl_tensor.Frontend.Lexer.{is_digit}
use ocelotl_tensor.Frontend.Parser.{digits_value}

abbrev sample : Text
sample = bytes_of "if X > 10 { Y = X + 1 * 2 } else { Y = relu(X) } return Y"

-- Doubles stand for their whole part here.
abbrev whole_part : Text → Option ℕ
whole_part lexeme = some (digits_value 0 (take_while is_digit lexeme))
