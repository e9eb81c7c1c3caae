-- ===== src/Appearance/Colors.antt =====
-- The records of a palette (web/src/theme.ts).
use file_harbor.Base.{Text}

pub record PaletteColor : Type 0 where
  pub main : Text
  pub light : Text
  pub dark : Text
  pub contrast_text : Text

pub record PaletteText : Type 0 where
  pub primary : Text
  pub secondary : Text
  pub disabled : Text

pub record PaletteAction : Type 0 where
  pub hover : Text
  pub selected : Text
  pub disabled : Text
  pub disabled_background : Text

pub record PaletteTexture : Type 0 where
  pub dot : Text
  pub wash : Text
  pub glow : Text

pub record FullPaletteScheme : Type 0 where
  pub primary : PaletteColor
  pub secondary : PaletteColor
  pub canvas : Text
  pub paper : Text
  pub app_bar : Text
  pub overlay : Text
  pub table_header : Text
  pub text : PaletteText
  pub divider : Text
  pub action : PaletteAction
  pub focus : Text
  pub shadow : Text
  pub texture : PaletteTexture

pub record AccentPalette : Type 0 where
  pub light : FullPaletteScheme
  pub dark : FullPaletteScheme
