-- ===== src/Errors/Boundary/Tests.antt =====
-- An error in private browsing, and one of a component.
use ntfy.Base.{◌≡◌, refl, true, some}
use ntfy.Base.Search.{includes, split_from}
use ntfy.Base.Text.{join}
use ntfy.Base.Trim.{trim, trim_start, trim_end}
use ntfy.Errors.Boundary.{Caught, is_unsupported_indexed_db, prettier_stack}

abbrev private_browsing : Caught
private_browsing = record {
  name = "DatabaseClosedError";
  message = some "InvalidStateError: no database";
  text = "e";
}

abbrev broken : Caught
broken = record {
  name = "TypeError";
  message = some "x is undefined";
  text = "TypeError: x is undefined";
}

not_supported : is_unsupported_indexed_db private_browsing ≡ true
unfolding is_unsupported_indexed_db includes
not_supported = refl

indented : prettier_stack "\n  in A\nin B" ≡ "  at in A\n  at in B"
unfolding prettier_stack split_from trim trim_start trim_end join
indented = refl
