-- ===== src/Specs/Dashboard/Charts.antt =====
-- Structs of api/resources/v1alpha1/zz_generated_dashboard_types.go and their JSON.
use signoz_operator.Prelude.{Bool, List, Option, String, [], ◌∷◌}
use signoz_operator.JsonBody.Value.{Fields}
use signoz_operator.Specs.{
  Number, build, object_entry, omit_bool, omit_number, omit_number_pointer, omit_objects,
  omit_pointer, omit_text, text_entry,
}

pub record DashboardDisplay : Type 0 where
  pub name : String
  pub description : String

unfoldable pub dashboard_display_json : DashboardDisplay → Fields
dashboard_display_json s =
    build (text_entry "name" s.name ∷ omit_text "description" s.description ∷ [])

pub record DashboardCollapse : Type 0 where
  pub is_open : Bool

unfoldable pub dashboard_collapse_json : DashboardCollapse → Fields
dashboard_collapse_json s = build (omit_bool "open" s.is_open ∷ [])

pub record DashboardLayoutSpecDisplay : Type 0 where
  pub collapse : Option DashboardCollapse
  pub title : String

unfoldable pub dashboard_layout_spec_display_json : DashboardLayoutSpecDisplay → Fields
dashboard_layout_spec_display_json s =
    build
      (omit_pointer dashboard_collapse_json "collapse" s.collapse ∷ omit_text "title" s.title ∷ [])

pub record DashboardContent : Type 0 where
  pub ref : String

unfoldable pub dashboard_content_json : DashboardContent → Fields
dashboard_content_json s = build (omit_text "$ref" s.ref ∷ [])

pub record DashboardItem : Type 0 where
  pub content : Option DashboardContent
  pub height : Number
  pub width : Number
  pub x : Number
  pub y : Number

unfoldable pub dashboard_item_json : DashboardItem → Fields
dashboard_item_json s = build (
    omit_pointer dashboard_content_json "content" s.content
    ∷ omit_number "height" s.height
    ∷ omit_number "width" s.width
    ∷ omit_number "x" s.x
    ∷ omit_number "y" s.y
    ∷ [])

pub record DashboardLayoutSpec : Type 0 where
  pub display : Option DashboardLayoutSpecDisplay
  pub items : List DashboardItem
  pub repeat_variable : String

unfoldable pub dashboard_layout_spec_json : DashboardLayoutSpec → Fields
dashboard_layout_spec_json s = build (
    omit_pointer dashboard_layout_spec_display_json "display" s.display
    ∷ omit_objects dashboard_item_json "items" s.items
    ∷ omit_text "repeatVariable" s.repeat_variable
    ∷ [])

pub record DashboardLayout : Type 0 where
  pub kind : String
  pub spec : DashboardLayoutSpec

unfoldable pub dashboard_layout_json : DashboardLayout → Fields
dashboard_layout_json s =
    build (text_entry "kind" s.kind ∷ object_entry dashboard_layout_spec_json "spec" s.spec ∷ [])

pub record DashboardY : Type 0 where
  pub scale : String

unfoldable pub dashboard_y_json : DashboardY → Fields
dashboard_y_json s = build (omit_text "scale" s.scale ∷ [])

pub record DashboardAxes : Type 0 where
  pub is_log_scale : Bool
  pub soft_max : Option Number
  pub soft_min : Option Number
  pub y : Option DashboardY

unfoldable pub dashboard_axes_json : DashboardAxes → Fields
dashboard_axes_json s = build (
    omit_bool "isLogScale" s.is_log_scale
    ∷ omit_number_pointer "softMax" s.soft_max
    ∷ omit_number_pointer "softMin" s.soft_min
    ∷ omit_pointer dashboard_y_json "y" s.y
    ∷ [])

pub record DashboardColors : Type 0 where
  pub fill : String
  pub max_count : Option Number
  pub min_count : Option Number
  pub mode : String
  pub palette : String
  pub scale : String
  pub steps : Number

unfoldable pub dashboard_colors_json : DashboardColors → Fields
dashboard_colors_json s = build (
    omit_text "fill" s.fill
    ∷ omit_number_pointer "maxCount" s.max_count
    ∷ omit_number_pointer "minCount" s.min_count
    ∷ omit_text "mode" s.mode
    ∷ omit_text "palette" s.palette
    ∷ omit_text "scale" s.scale
    ∷ omit_number "steps" s.steps
    ∷ [])

pub record DashboardSpanGaps : Type 0 where
  pub fill_less_than : String
  pub fill_only_below : Bool

unfoldable pub dashboard_span_gaps_json : DashboardSpanGaps → Fields
dashboard_span_gaps_json s =
    build
      (omit_text "fillLessThan" s.fill_less_than ∷ omit_bool "fillOnlyBelow" s.fill_only_below ∷ [])

pub record DashboardChartAppearance : Type 0 where
  pub colors : Option DashboardColors
  pub fill_mode : String
  pub fill_opacity : Option Number
  pub line_interpolation : String
  pub line_style : String
  pub show_points : Bool
  pub span_gaps : Option DashboardSpanGaps

unfoldable pub dashboard_chart_appearance_json : DashboardChartAppearance → Fields
dashboard_chart_appearance_json s = build (
    omit_pointer dashboard_colors_json "colors" s.colors
    ∷ omit_text "fillMode" s.fill_mode
    ∷ omit_number_pointer "fillOpacity" s.fill_opacity
    ∷ omit_text "lineInterpolation" s.line_interpolation
    ∷ omit_text "lineStyle" s.line_style
    ∷ omit_bool "showPoints" s.show_points
    ∷ omit_pointer dashboard_span_gaps_json "spanGaps" s.span_gaps
    ∷ [])
