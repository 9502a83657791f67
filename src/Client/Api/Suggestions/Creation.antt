-- ===== src/Client/Api/Suggestions/Creation.antt =====
-- What CreateSuggestion leaves in the store, and what the central server will make of it.
use alkasir.Base.{List}
use alkasir.Base.Dict.{Dict}
use alkasir.Shared.Validator.{Url}
use alkasir.Client.Api.Suggestions.{created, Created}

abbrev url_of : Url → Created → Url
url_of d (created u) = u
url_of d _ = d
