-- ===== src/Client/BrowserCode/Tests.antt =====
-- A code of three parts without a colon.
use alkasir.Base.{codes}
use alkasir.Client.BrowserCode.{BrowserCode}

abbrev code : BrowserCode
code = record { key = codes "k"; host = codes "h"; port = codes "80" }
